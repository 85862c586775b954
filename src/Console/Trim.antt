-- ===== src/Console/Trim.antt =====
-- A text without the zeros in front of it.
use tiny_bios.Prelude.{
  ℕ, zero, suc, ◌+◌, ◌-◌, ◌≤◌, ◌<◌, ◌≡◌, refl, ap, ◌∙◌, arith, true, ◌&&◌, List, [], ◌∷◌, length,
  ◌==◌, ◌!=◌, leb, if◌then◌else◌, Bool-cases, inl, inr,
}
use Prim.Native.Nat.{max}
use tiny_bios.Text.Hex.{read_hex, hex_digit}
use tiny_bios.Memory.{Memory}
use tiny_bios.Console.{skip_zeros}
use tiny_bios.Console.Texts.{Holds, NoZero, Holds-at, Holds-next, Holds-end}

-- The number of zeros in front.
unfoldable pub zeros : List ℕ → ℕ
zeros [] = 0
zeros (c ∷ cs) = if c != 0x30 then 0 else suc (zeros cs)

-- The characters without the zeros in front, but at least so many of them.
unfoldable pub trim : ℕ → List ℕ → List ℕ
trim width [] = []
trim width (c ∷ cs) =
    let rest = trim width cs in if (c == 0x30) && leb width (length cs) then rest else c ∷ cs

pub zeros-le : (cs : List ℕ) → zeros cs ≤ length cs
unfolding zeros
zeros-le [] = omega arith
zeros-le (c ∷ cs) = ground (arith, zeros-le cs)

pub length-trim :
    (width : ℕ) (cs : List ℕ)
    → width ≤ length cs
    → length (trim width cs) ≡ max width (length cs - zeros cs)
unfolding trim zeros
length-trim width [] h = ground arith
length-trim width (c ∷ cs) h = ground (arith, length-trim width cs, zeros-le cs)

pub trim-NoZero : (width : ℕ) (cs : List ℕ) → NoZero cs → NoZero (trim width cs)
unfolding trim NoZero
trim-NoZero width [] p = tt
trim-NoZero width (c ∷ cs) p = elim (Bool-cases ((c == 0x30) && leb width (length cs))) [
  | inl off ↦ rw off (trim-NoZero width cs (p.2))
  | inr kept ↦ rw kept p
]

trim-le : (width : ℕ) (cs : List ℕ) → length (trim width cs) ≤ length cs
unfolding trim
trim-le width [] = omega arith
trim-le width (c ∷ cs) = ground (arith, trim-le width cs)

pub Holds-trim :
    (width : ℕ) (cs : List ℕ) (m : Memory) (a : ℕ)
    → Holds m a cs
    → Holds m (a + (length cs - length (trim width cs))) (trim width cs)
unfolding trim
Holds-trim width [] m a h = λ i le. ap m (omega arith) ∙ h i le
Holds-trim width (c ∷ cs) m a h = elim (Bool-cases ((c == 0x30) && leb width (length cs))) [
  | inl off ↦ rw off (λ i le.
      ap m (omega (arith, trim-le width cs))
      ∙ Holds-trim width cs m (a + 1) (Holds-next m a c cs h) i le)
  | inr kept ↦ rw kept (λ i le. ap m (omega arith) ∙ h i le)
]

pub skip_zeros-Holds :
    (cs : List ℕ) (left : ℕ) (m : Memory) (a : ℕ)
    → Holds m a cs
    → length cs < left
    → skip_zeros left m a ≡ a + zeros cs
unfolding skip_zeros zeros
skip_zeros-Holds cs zero m a h small = absurd (omega arith)
skip_zeros-Holds [] (suc left) m a h small = rw (Holds-end m a h) (omega arith)
skip_zeros-Holds (c ∷ cs) (suc left) m a h small =
    rw (Holds-at m a c cs h)
      (ground (arith, skip_zeros-Holds cs left m (a + 1) (Holds-next m a c cs h)))

digit_of_zero : (c : ℕ) → (c == 0x30) ≡ true → hex_digit c ≡ 0
unfolding hex_digit
digit_of_zero c is_zero = ground arith

-- The zeros in front do not change the number that hexadecimal digits stand for.
pub read_hex-trim : (width : ℕ) (cs : List ℕ) → read_hex 0 (trim width cs) ≡ read_hex 0 cs
unfolding trim read_hex
read_hex-trim width [] = refl
read_hex-trim width (c ∷ cs) = elim (Bool-cases (c == 0x30)) [
  | inl is_zero ↦ elim (Bool-cases (leb width (length cs))) [
    | inl off ↦ rw is_zero (
        rw off (
          read_hex-trim width cs
          ∙ ap (λ v. read_hex v cs) (omega (arith, digit_of_zero c is_zero))))
    | inr kept ↦ rw is_zero (rw kept refl)
  ]
  | inr other ↦ rw other refl
]
