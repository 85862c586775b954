-- ===== src/Slab/Bitmap.antt =====
-- The laws of the bitmap, over memories of bytes.
use tiny_bios.Prelude.{
  ℕ, ◌+◌, ◌-◌, ◌*◌, ◌/◌, ◌%◌, ◌^◌, ◌<◌, ◌≡◌, inl, inr, refl, sym, arith, bit_and, bit_or, Bool,
  true, false, not, ◌==◌, ◌!=◌, if◌then◌else◌, u8, ==_iff, Bool-cases,
}
use tiny_bios.Prelude.Bits.{all_below, all_below_sound, all_below_sound₂}
use tiny_bios.Memory.{Memory, store8}
use tiny_bios.Memory.Words.{store8-same, store8-other}
use tiny_bios.Slab.{bitmap_idx, bitmap_bit, bitmap_get, bitmap_set, bitmap_clear}

agree : Bool → Bool → Bool
agree true b = b
agree false b = not b

agree→≡ : (a b : Bool) → agree a b ≡ true → a ≡ b
unfolding agree
agree→≡ true true h = refl
agree→≡ true false h = sym h
agree→≡ false true h = h
agree→≡ false false h = refl

-- The laws of one byte, checked at every byte and every pair of bits.
or_test : ℕ → ℕ → ℕ → Bool
or_test i j x =
    agree (bit_and (u8 (bit_or x (2 ^ i))) (2 ^ j) != 0)
      (if i == j then true else bit_and x (2 ^ j) != 0)

and_test : ℕ → ℕ → ℕ → Bool
and_test i j x =
    agree (bit_and (u8 (bit_and x (0xff - 2 ^ i))) (2 ^ j) != 0)
      (if i == j then false else bit_and x (2 ^ j) != 0)

at_byte : (ℕ → ℕ → ℕ → Bool) → Bool
at_byte p = all_below 8 (λ i. all_below 8 (λ j. all_below 256 (p i j)))

at_byte_sound :
    (p : ℕ → ℕ → ℕ → Bool)
    → at_byte p ≡ true
    → (i j x : ℕ) → i < 8
    → j < 8
    → x < 256
    → p i j x ≡ true
unfolding at_byte
at_byte_sound p h i j x hi hj hx =
    all_below_sound 256 (p i j) x (all_below_sound₂ 8 8 (λ a b. all_below 256 (p a b)) i j h hi hj)
      hx

or_table : at_byte or_test ≡ true
unfolding at_byte all_below or_test agree
or_table = refl

and_table : at_byte and_test ≡ true
unfolding at_byte all_below and_test agree
and_table = refl

or_bit :
    (i j x : ℕ)
    → i < 8
    → j < 8
    → x < 256
    → (bit_and (u8 (bit_or x (2 ^ i))) (2 ^ j) != 0)
      ≡ (if i == j then true else bit_and x (2 ^ j) != 0)
unfolding or_test
or_bit i j x hi hj hx = agree→≡ _ _ (at_byte_sound or_test or_table i j x hi hj hx)

and_bit :
    (i j x : ℕ)
    → i < 8
    → j < 8
    → x < 256
    → (bit_and (u8 (bit_and x (0xff - 2 ^ i))) (2 ^ j) != 0)
      ≡ (if i == j then false else bit_and x (2 ^ j) != 0)
unfolding and_test
and_bit i j x hi hj hx = agree→≡ _ _ (at_byte_sound and_test and_table i j x hi hj hx)

-- A store that changes the bits of a byte as `v` says.
module _ (m : Memory) (b e v : ℕ) (to : Bool)
    (there : (j : ℕ)
      → j < 8
      → (bit_and (u8 v) (2 ^ j) != 0)
        ≡ (if e % 8 == j then to else bit_and (m (b + e / 8)) (2 ^ j) != 0)) where
  get-store8 :
      (x : ℕ) → bitmap_get (store8 m (b + e / 8) v) b x ≡ (if e == x then to else bitmap_get m b x)
  unfolding bitmap_get bitmap_idx bitmap_bit
  get-store8 x = elim (Bool-cases (e / 8 == x / 8)) [
    | inl same ↦
        ground
          (arith, ==_iff (e / 8) (x / 8), store8-same m (b + e / 8) v, there (x % 8) (omega arith))
    | inr other ↦ ground (arith, ==_iff (e / 8) (x / 8), store8-other m (b + e / 8) v (b + x / 8))
  ]

-- Setting an entry changes that entry, to true, and no other.
pub bitmap_get-bitmap_set :
    (m : Memory) (b e x : ℕ)
    → ((y : ℕ) → m y < 256)
    → bitmap_get (bitmap_set b e m) b x ≡ (if e == x then true else bitmap_get m b x)
unfolding bitmap_set bitmap_idx bitmap_bit
bitmap_get-bitmap_set m b e x bytes =
    get-store8 m b e (bit_or (m (b + e / 8)) (1 * 2 ^ (e % 8))) true
      (λ j hj.
        ground (arith, or_bit (e % 8) j (m (b + e / 8)) (omega arith) hj (bytes (b + e / 8))))
      x

-- Clearing an entry changes that entry, to false, and no other.
pub bitmap_get-bitmap_clear :
    (m : Memory) (b e x : ℕ)
    → ((y : ℕ) → m y < 256)
    → bitmap_get (bitmap_clear b e m) b x ≡ (if e == x then false else bitmap_get m b x)
unfolding bitmap_clear bitmap_idx bitmap_bit
bitmap_get-bitmap_clear m b e x bytes =
    get-store8 m b e (bit_and (m (b + e / 8)) (0xff - 1 * 2 ^ (e % 8))) false
      (λ j hj.
        ground (arith, and_bit (e % 8) j (m (b + e / 8)) (omega arith) hj (bytes (b + e / 8))))
      x
