-- ===== src/Console/Width.antt =====
-- How `vfblogf` reads the width of a conversion.
use tiny_bios.Prelude.{
  ℕ, suc, ◌+◌, ◌-◌, ◌*◌, ◌<◌, ◌≤◌, ◌≡◌, refl, ap, ◌∙◌, arith, bit_and, true, false, Option, some,
  List, ◌∷◌, ◌++◌, length, ◌==◌, ltb, if◌then◌else◌, Bool-cases, inl, inr, ◌^◌,
}
use tiny_bios.Prelude.Bits.{and_mask}
use tiny_bios.Memory.{Memory}
use tiny_bios.Console.{◌>>=◌, is_low, read_width, Round, convert}
use tiny_bios.Console.Texts.{Holds, Holds-at}
use tiny_bios.Console.Pieces.{spell_width}

letter_low : (c : ℕ) → 0x3a ≤ c → c < 0x80 → is_low c ≡ false
unfolding is_low
letter_low c low high = ground arith

digit_low : (d : ℕ) → d < 10 → is_low (0x30 + d) ≡ true
unfolding is_low
digit_low d low = ground arith

nibble : (d : ℕ) → d < 10 → bit_and (0x30 + d) 0x0f ≡ d
nibble d low = omega (arith, and_mask 4 (0x30 + d))

module _ (m : Memory) (letter : ℕ) (low : 0x3a ≤ letter) (high : letter < 0x80) where
  width_end : (fuel f lc : ℕ) → m f ≡ letter → read_width (suc fuel) m f lc ≡ some (lc, f)
  unfolding read_width
  width_end fuel f lc at = rw at (rw (letter_low letter low high) refl)

  -- A last digit, and a digit that another one follows.
  width_ones :
      (fuel f lc d : ℕ)
      → d < 10
      → m f ≡ 0x30 + d
      → m (f + 1) ≡ letter
      → read_width (suc (suc fuel)) m f lc ≡ some (lc + d, f + 1)
  unfolding read_width
  width_ones fuel f lc d small at next = rw at (
      rw (digit_low d small) (
        rw next (
          rw (letter_low letter low high) (ap (λ (t : ℕ). some (lc + t, f + 1)) (nibble d small)))))

  width_step :
      (fuel f : ℕ)
      → is_low (m f) ≡ true
      → read_width (suc fuel) m f 0
        ≡ read_width fuel m
            (f + 1)
            (0 + (if is_low (m (f + 1)) then 10 * bit_and (m f) 0x0f else bit_and (m f) 0x0f))
  unfolding read_width
  width_step fuel f is_digit = rw is_digit refl

  width_tens :
      (fuel f d : ℕ)
      → d < 10
      → m f ≡ 0x31
      → m (f + 1) ≡ 0x30 + d
      → m (f + 1 + 1) ≡ letter
      → read_width (suc (suc (suc fuel))) m f 0 ≡ some (10 + d, f + 1 + 1)
  width_tens fuel f d small at next last =
      width_step (suc (suc fuel)) f (ap is_low at ∙ digit_low 1 (omega arith))
      ∙ ap (λ v. read_width (suc (suc fuel)) m (f + 1) v) ten
      ∙ width_ones fuel (f + 1) 10 d small next last
    where
      ten : 0 + (if is_low (m (f + 1)) then 10 * bit_and (m f) 0x0f else bit_and (m f) 0x0f) ≡ 10
      ten = rw next (rw (digit_low d small) (rw at refl))

module _ (fuel : ℕ) (enough : 16 < fuel) (m : Memory) (tmp : ℕ) (room : tmp + 33 < 2 ^ 64) where
  -- Behind a `%`: reading the width leads to the letter.
  abbrev pub conversion : ℕ → List ℕ → Option Round
  conversion f args =
      if m f == 0x30
      then (do (lc, at) ← read_width fuel m (f + 1) 0; convert fuel true m tmp lc at args)
      else convert fuel true m tmp 0 f args

  module _ (letter : ℕ) (low : 0x3a ≤ letter) (high : letter < 0x80) (rest : List ℕ) (f : ℕ)
      (args : List ℕ) where
    conversion_plain : m f ≡ letter → conversion f args ≡ convert fuel true m tmp 0 f args
    conversion_plain at = rw at (rw (other letter low) refl)
      where
        other : (c : ℕ) → 0x3a ≤ c → (c == 0x30) ≡ false
        other c h = ground arith

    conversion_ones :
        (k d : ℕ)
        → fuel ≡ suc (suc k)
        → d < 10
        → m f ≡ 0x30
        → m (f + 1) ≡ 0x30 + d
        → m (f + 1 + 1) ≡ letter
        → conversion f args ≡ convert fuel true m tmp d (f + 1 + 1) args
    conversion_ones k d e small zero_at digit_at letter_at = rw zero_at (
        rw
          (ap (λ n. read_width n m (f + 1) 0) e
            ∙ width_ones m letter low high k (f + 1) 0 d small digit_at letter_at)
          (ap (λ (t : ℕ). convert fuel true m tmp t (f + 1 + 1) args) (omega arith)))

    conversion_tens :
        (k d : ℕ)
        → fuel ≡ suc (suc (suc k))
        → d < 10
        → m f ≡ 0x30
        → m (f + 1) ≡ 0x31
        → m (f + 1 + 1) ≡ 0x30 + d
        → m (f + 1 + 1 + 1) ≡ letter
        → conversion f args ≡ convert fuel true m tmp (10 + d) (f + 1 + 1 + 1) args
    conversion_tens k d e small zero_at one_at digit_at letter_at = rw zero_at (
        rw
          (ap (λ n. read_width n m (f + 1) 0) e
            ∙ width_tens m letter low high k (f + 1) d small one_at digit_at letter_at)
          refl)

    pub conversion_lem :
        (width : ℕ)
        → width ≤ 16
        → Holds m f (spell_width width ++ letter ∷ rest)
        → conversion f args ≡ convert fuel true m tmp width (f + length (spell_width width)) args
    unfolding spell_width
    conversion_lem width small h = elim (Bool-cases (width == 0)) [
      | inl no_width ↦ rw no_width (
          conversion_plain (Holds-at m f letter rest (rw no_width at h))
          ∙ moved 0 width f (f + 0) (ground arith) (omega arith))
      | inr some_width ↦ elim (Bool-cases (ltb width 10)) [
        | inl one_digit ↦
            (let k : Holds m f (0x30 ∷ (0x30 + width) ∷ letter ∷ rest) =
                rw (some_width, one_digit) at h in
              rw some_width (
                rw one_digit (
                  conversion_ones (fuel - 2) width (omega arith) (ground arith)
                    (ap m (omega arith) ∙ k 0 (omega arith))
                    (ap m (omega arith) ∙ k 1 (omega arith))
                    (ap m (omega arith) ∙ k 2 (omega arith))
                  ∙ moved width width (f + 1 + 1) (f + 2) refl (omega arith))))
        | inr two_digits ↦
            (let k : Holds m f (0x30 ∷ 0x31 ∷ (0x30 + (width - 10)) ∷ letter ∷ rest) =
                rw (some_width, two_digits) at h in
              rw some_width (
                rw two_digits (
                  conversion_tens (fuel - 3) (width - 10) (omega arith) (omega arith)
                    (ap m (omega arith) ∙ k 0 (omega arith))
                    (ap m (omega arith) ∙ k 1 (omega arith))
                    (ap m (omega arith) ∙ k 2 (omega arith))
                    (ap m (omega arith) ∙ k 3 (omega arith))
                  ∙ moved (10 + (width - 10)) width (f + 1 + 1 + 1) (f + 3) (ground arith)
                      (omega arith))))
      ]
    ]
      where
        moved :
            (w v x y : ℕ)
            → w ≡ v
            → x ≡ y
            → convert fuel true m tmp w x args ≡ convert fuel true m tmp v y args
        moved w v x y p q = λ i. convert fuel true m tmp (p i) (q i) args
