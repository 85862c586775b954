-- ===== src/Console/Numbers.antt =====
-- What `bputint` prints.
use tiny_bios.Prelude.{
  ℕ, zero, suc, ◌+◌, ◌-◌, ◌/◌, ◌^◌, ◌≤◌, ◌<◌, ◌≡◌, refl, sym, ap, ◌∙◌, arith, bit_and, bit_or, true,
  ◌&&◌, some, List, [], ◌∷◌, length, ◌==◌, ltb, sub64, if◌then◌else◌, Bool-cases, inl, inr,
}
use Prim.Native.Nat.{max}
use tiny_bios.Prelude.Bits.{all_below, all_below_sound, and_mask}
use tiny_bios.Memory.{Memory, memset}
use tiny_bios.Memory.Loops.{memset_lem}
use tiny_bios.Text.{itoa, itoa_loop, itoah, itoah_loop, hex_character, strlen}
use tiny_bios.Console.{store_characters, extend_sign, number_characters, skip_zeros, bputint}
use tiny_bios.Text.Hex.{read_hex, read_hex-itoah}
use tiny_bios.Console.Trim.{
  zeros, trim, zeros-le, length-trim, trim-NoZero, Holds-trim, skip_zeros-Holds, read_hex-trim,
}
use tiny_bios.Console.Texts.{
  char_at, Holds, NoZero, store_characters-behind, store_characters-at, char_at-length,
  strlen-Holds, blog-Holds,
}

-- Every character of a number is a printable one.
hex_table : all_below 16 (λ n. ltb 0 (hex_character n) && ltb (hex_character n) 256) ≡ true
unfolding all_below hex_character
hex_table = refl

digit_table : all_below 17 (λ n. ltb 0 (bit_or n 0x30) && ltb (bit_or n 0x30) 256) ≡ true
unfolding all_below
digit_table = refl

hex_byte : (n : ℕ) → n < 16 → (0 < hex_character n) × (hex_character n < 256)
hex_byte n h = ground (arith, all_below_sound 16 _ n hex_table h)

digit_byte : (n : ℕ) → n < 17 → (0 < bit_or n 0x30) × (bit_or n 0x30 < 256)
digit_byte n h = ground (arith, all_below_sound 17 _ n digit_table h)

itoah_loop-NoZero : (left d : ℕ) (dst : List ℕ) → NoZero dst → NoZero (itoah_loop left d dst)
unfolding itoah_loop NoZero
itoah_loop-NoZero zero d dst p = p
itoah_loop-NoZero (suc left) d dst p =
    let b = hex_byte (bit_and d 0xf) (omega (arith, and_mask 4 d)) in
    itoah_loop-NoZero left (d / 2 ^ 4) _ (b.0, b.1, p)

length-itoah_loop : (left d : ℕ) (dst : List ℕ) → length (itoah_loop left d dst) ≡ left + length dst
unfolding itoah_loop
length-itoah_loop zero d dst = omega arith
length-itoah_loop (suc left) d dst =
    omega (arith, length-itoah_loop left (d / 2 ^ 4) (hex_character (bit_and d 0xf) ∷ dst))

itoa_loop-NoZero :
    (left d carry : ℕ) (dst : List ℕ) → carry ≤ 1 → NoZero dst → NoZero (itoa_loop left d carry dst)
unfolding itoa_loop NoZero
itoa_loop-NoZero zero d carry dst small p = p
itoa_loop-NoZero (suc left) d carry dst small p =
    elim (Bool-cases (ltb 9 (bit_and d 0xf + carry))) [
      | inl above ↦
          (let b = digit_byte (bit_and d 0xf + carry - 0xa) (omega (arith, and_mask 4 d)) in
            rw above (itoa_loop-NoZero left (d / 2 ^ 4) 1 _ (omega arith) (b.0, b.1, p)))
      | inr under ↦
          (let b = digit_byte (bit_and d 0xf + carry) (omega (arith, and_mask 4 d)) in
            rw under (itoa_loop-NoZero left (d / 2 ^ 4) 0 _ (omega arith) (b.0, b.1, p)))
    ]

length-itoa_loop :
    (left d carry : ℕ) (dst : List ℕ) → length (itoa_loop left d carry dst) ≡ left + length dst
unfolding itoa_loop
length-itoa_loop zero d carry dst = omega arith
length-itoa_loop (suc left) d carry dst = elim (Bool-cases (ltb 9 (bit_and d 0xf + carry))) [
  | inl above ↦ rw above (
      omega (
        arith,
        length-itoa_loop left (d / 2 ^ 4) 1 (bit_or (bit_and d 0xf + carry - 0xa) 0x30 ∷ dst),
      ))
  | inr under ↦ rw under (
      omega
        (arith, length-itoa_loop left (d / 2 ^ 4) 0 (bit_or (bit_and d 0xf + carry) 0x30 ∷ dst)))
]

number_characters-NoZero : (d base : ℕ) → NoZero (number_characters d base)
unfolding number_characters itoah itoa NoZero
number_characters-NoZero d base = elim (Bool-cases (base == 16)) [
  | inl hex ↦ rw hex (itoah_loop-NoZero 16 (extend_sign d) [] tt)
  | inr other ↦ rw other (itoa_loop-NoZero 16 (extend_sign d) 0 [] (omega arith) tt)
]

length-number_characters : (d base : ℕ) → length (number_characters d base) ≡ 16
unfolding number_characters itoah itoa
length-number_characters d base = elim (Bool-cases (base == 16)) [
  | inl hex ↦ rw hex (length-itoah_loop 16 (extend_sign d) [])
  | inr other ↦ rw other (length-itoa_loop 16 (extend_sign d) 0 [])
]

module _ (m : Memory) (tmp d base : ℕ) where
  abbrev cs : List ℕ
  cs = number_characters d base

  abbrev buffer : Memory
  buffer = store_characters cs tmp (memset tmp 0 33 m)

  Holds-buffer : Holds buffer tmp cs
  Holds-buffer i le = elim (Bool-cases (ltb i 16)) [
    | inl inside ↦
        store_characters-at cs tmp (memset tmp 0 33 m) i (number_characters-NoZero d base)
          (ground (arith, length-number_characters d base))
    | inr last ↦
        (let end : i ≡ length cs = ground (arith, length-number_characters d base) in
          store_characters-behind cs tmp (memset tmp 0 33 m) (tmp + i) (omega arith)
          ∙ ground (arith, memset_lem tmp 0 33 m (tmp + i), length-number_characters d base)
          ∙ sym (ap (char_at cs) end ∙ char_at-length cs))
  ]

  -- Where the text of at least `width` characters starts.
  unfoldable text_at : ℕ → ℕ
  text_at width = tmp + (16 - max width (16 - zeros cs))

  length-shown : (width : ℕ) → width ≤ 16 → length (trim width cs) ≡ max width (16 - zeros cs)
  length-shown width small = ground (arith, length-trim width cs, length-number_characters d base)

  Holds-text : (width : ℕ) → width ≤ 16 → Holds buffer (text_at width) (trim width cs)
  unfolding text_at
  Holds-text width small i le =
      ap buffer (omega (arith, length-shown width small, length-number_characters d base))
      ∙ Holds-trim width cs buffer tmp Holds-buffer i le

  first_text : skip_zeros 32 buffer tmp ≡ text_at 0
  unfolding text_at
  first_text = omega (
    arith,
    skip_zeros-Holds cs 32 buffer tmp Holds-buffer (omega (arith, length-number_characters d base)),
    zeros-le cs,
    length-number_characters d base,
  )

  start_text : (if max 0 (16 - zeros cs) == 0 then text_at 0 - 1 else text_at 0) ≡ text_at 1
  unfolding text_at
  start_text = ground (arith, zeros-le cs, length-number_characters d base)

  widened_text :
      (width : ℕ)
      → width ≤ 16
      → tmp + 33 < 2 ^ 64
      → (if ltb (max 1 (16 - zeros cs)) width
          then sub64 (text_at 1) (width - max 1 (16 - zeros cs))
          else text_at 1)
        ≡ text_at (max 1 width)
  unfolding text_at
  widened_text width small room = ground (arith, zeros-le cs, length-number_characters d base)

  module _ (fuel : ℕ) (enough : 16 < fuel) where
    strlen-text :
        (width : ℕ)
        → width ≤ 16
        → strlen fuel buffer (text_at width) 0 ≡ some (max width (16 - zeros cs))
    strlen-text width small =
        strlen-Holds (trim width cs) fuel buffer (text_at width) (Holds-text width small)
          (trim-NoZero width cs (number_characters-NoZero d base))
          (omega (arith, length-shown width small, zeros-le cs, length-number_characters d base))
        ∙ ap some (length-shown width small)

    -- For a width of 16 at most, `bputint` makes one call of the device, with the characters of the number without its
    -- zeros in front, but at least `width` of them, and at least one, whatever the memory holds.
    pub bputint_lem :
        (width : ℕ)
        → width ≤ 16
        → tmp + 33 < 2 ^ 64
        → bputint fuel true m tmp width d base ≡ some (trim (max 1 width) cs ∷ [])
    unfolding bputint
    bputint_lem width small room = rw first_text (
        rw (strlen-text 0 (omega arith)) (
          rw start_text (
            rw (strlen-text 1 (omega arith)) (
              rw (widened_text width small room) (
                blog-Holds (trim (max 1 width) cs) fuel buffer (text_at (max 1 width))
                  (Holds-text (max 1 width) (omega arith))
                  (trim-NoZero (max 1 width) cs (number_characters-NoZero d base))
                  (omega (
                    arith,
                    length-shown (max 1 width) (omega arith),
                    length-number_characters d base,
                  )))))))

    -- For a width of 16 at most, what `bputint` prints in base 16 reads back as the number, its sign extended to 64
    -- bits.
    pub read_hex-bputint :
        (width : ℕ)
        → width ≤ 16
        → tmp + 33 < 2 ^ 64
        → base ≡ 16
        → (shown : List ℕ) × (bputint fuel true m tmp width d base ≡ some (shown ∷ []))
          × (read_hex 0 shown ≡ extend_sign d)
    unfolding number_characters extend_sign
    read_hex-bputint width small room hex = (
      trim (max 1 width) cs,
      bputint_lem width small room,
      read_hex-trim (max 1 width) cs ∙ rw hex (read_hex-itoah (extend_sign d) (ground arith)),
    )
