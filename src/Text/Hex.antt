-- ===== src/Text/Hex.antt =====
-- Reading back what `itoah` writes.
use tiny_bios.Prelude.{
  ℕ, zero, suc, ◌+◌, ◌-◌, ◌*◌, ◌/◌, ◌%◌, ◌^◌, ◌<◌, ◌≡◌, refl, arith, ap, ◌∙◌, List, [], ◌∷◌, true,
  ◌==◌, ltb, bit_and, if◌then◌else◌,
}
use native.Mathlib.Nat.{pow-suc}
use tiny_bios.Prelude.Bits.{all_below, all_below_sound, and_mask}
use tiny_bios.Text.{hex_character, itoah_loop, itoah}

-- The digit that a character stands for.
unfoldable pub hex_digit : ℕ → ℕ
hex_digit c = if ltb c 0x3a then c - 0x30 else c - 0x37

-- The number that characters stand for, behind the value of those before.
unfoldable pub read_hex : ℕ → List ℕ → ℕ
read_hex before [] = before
read_hex before (c ∷ cs) = read_hex (before * 16 + hex_digit c) cs

digit_table : all_below 16 (λ n. hex_digit (hex_character n) == n) ≡ true
unfolding all_below hex_digit hex_character
digit_table = refl

digit_lem : (n : ℕ) → n < 16 → hex_digit (hex_character n) ≡ n
digit_lem n h =
    ground (arith, all_below_sound 16 (λ n. hex_digit (hex_character n) == n) n digit_table h)

low : (d : ℕ) → hex_digit (hex_character (bit_and d 0xf)) ≡ d % 16
low d = ap (λ v. hex_digit (hex_character v)) (and_mask 4 d) ∙ digit_lem (d % 16) (omega arith)

next_value :
    (before left d : ℕ) → (before * 16 ^ left + d / 16) * 16 + d % 16 ≡ before * 16 ^ suc left + d
next_value before left d = omega (arith, ap (λ (t : ℕ). before * t) (pow-suc 16 left))

loop_lem :
    (left d before : ℕ) (dst : List ℕ)
    → d < 16 ^ left
    → read_hex before (itoah_loop left d dst) ≡ read_hex (before * 16 ^ left + d) dst
unfolding itoah_loop read_hex
loop_lem zero d before dst h = ap (λ v. read_hex v dst) (omega arith)
loop_lem (suc left) d before dst h =
    loop_lem left (d / 16) before _ (omega (arith, pow-suc 16 left))
    ∙ ap (λ v. read_hex v dst)
        (ap (λ (v : ℕ). (before * 16 ^ left + d / 16) * 16 + v) (low d) ∙ next_value before left d)

-- For a number of 64 bits, reading the 16 characters as hexadecimal digits gives it back.
pub read_hex-itoah : (d : ℕ) → d < 2 ^ 64 → read_hex 0 (itoah d) ≡ d
unfolding itoah read_hex
read_hex-itoah d h = omega (arith, loop_lem 16 d 0 [] (omega arith))
