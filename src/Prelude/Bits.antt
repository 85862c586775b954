-- ===== src/Prelude/Bits.antt =====
-- Laws of `&` and `|` at variables. Over a byte they are checked value by value; a low mask is
-- treated at every width.
use Prim.Native.Nat.{
  ℕ, zero, suc, ◌+◌, ◌-◌, ◌*◌, ◌/◌, ◌%◌, ◌^◌, ◌≤◌, ◌<◌, min, max, bit_and, bit_or, digits,
  bit_and-bitwise, bit_or-bitwise,
}
use mathlib.Core.Path.{◌≡◌, refl, ap}
use mathlib.Core.Bool.{Bool, true, ◌&&◌}
use native.Mathlib.Omega.{arith}
use native.Mathlib.Nat.{pow-suc, one-le-pow}

unfoldable pub all_below : ℕ → (ℕ → Bool) → Bool
all_below zero p = true
all_below (suc n) p = p n && all_below n p

pub all_below_sound : (n : ℕ) (p : ℕ → Bool) (x : ℕ) → all_below n p ≡ true → x < n → p x ≡ true
unfolding all_below
all_below_sound zero p x h below = absurd (omega arith)
all_below_sound (suc n) p x h below = ground (arith, all_below_sound n p x)

-- The same over two arguments.
pub all_below_sound₂ :
    (n m : ℕ) (p : ℕ → ℕ → Bool) (x y : ℕ)
    → all_below n (λ a. all_below m (p a)) ≡ true
    → x < n
    → y < m
    → p x y ≡ true
all_below_sound₂ n m p x y h hx hy =
    all_below_sound m (p x) y (all_below_sound n (λ a. all_below m (p a)) x h hx) hy

-- The recursion that the native operations stand for needs no more fuel than its first argument.
module _ (rest : ℕ → ℕ) (op : ℕ → ℕ → ℕ) where
  fuel_enough : (j k a b : ℕ) → a ≤ j → a ≤ k → digits rest op j a b ≡ digits rest op k a b
  fuel_enough zero zero a b p q = refl
  fuel_enough zero (suc k) zero b p q = refl
  fuel_enough zero (suc k) (suc a) b p q = absurd (omega arith)
  fuel_enough (suc j) zero zero b p q = refl
  fuel_enough (suc j) zero (suc a) b p q = absurd (omega arith)
  fuel_enough (suc j) (suc k) zero b p q = refl
  fuel_enough (suc j) (suc k) (suc a) b p q =
      omega (arith, fuel_enough j k (suc a / 2) (b / 2) (omega arith) (omega arith))

pub and_last_bit : (a b : ℕ) → bit_and a b ≡ bit_and (a / 2) (b / 2) * 2 + min (a % 2) (b % 2)
and_last_bit zero b = omega (arith, bit_and-bitwise 0 b, bit_and-bitwise 0 (b / 2))
and_last_bit (suc a) b = omega (
  arith,
  bit_and-bitwise (suc a) b,
  bit_and-bitwise (suc a / 2) (b / 2),
  fuel_enough (λ _. 0) min a (suc a / 2) (suc a / 2) (b / 2) (omega arith) (omega arith),
)

pub or_last_bit : (a b : ℕ) → bit_or a b ≡ bit_or (a / 2) (b / 2) * 2 + max (a % 2) (b % 2)
or_last_bit zero b = omega (arith, bit_or-bitwise 0 b, bit_or-bitwise 0 (b / 2))
or_last_bit (suc a) b = omega (
  arith,
  bit_or-bitwise (suc a) b,
  bit_or-bitwise (suc a / 2) (b / 2),
  fuel_enough (λ y. y) max a (suc a / 2) (suc a / 2) (b / 2) (omega arith) (omega arith),
)

or-zero_fuel : (n a : ℕ) → a ≤ n → bit_or a 0 ≡ a
or-zero_fuel n zero h = refl
or-zero_fuel zero (suc a) h = absurd (omega arith)
or-zero_fuel (suc n) (suc a) h =
    omega (arith, or_last_bit (suc a) 0, or-zero_fuel n (suc a / 2) (omega arith))

and-zero_fuel : (n a : ℕ) → a ≤ n → bit_and a 0 ≡ 0
and-zero_fuel n zero h = refl
and-zero_fuel zero (suc a) h = absurd (omega arith)
and-zero_fuel (suc n) (suc a) h =
    omega (arith, and_last_bit (suc a) 0, and-zero_fuel n (suc a / 2) (omega arith))

pub zero_and : (b : ℕ) → bit_and 0 b ≡ 0
zero_and b = omega (arith, bit_and-bitwise 0 b)

pub bit_or-zero : (a : ℕ) → bit_or a 0 ≡ a
bit_or-zero a = or-zero_fuel a a (omega arith)

pub bit_and-zero : (a : ℕ) → bit_and a 0 ≡ 0
bit_and-zero a = and-zero_fuel a a (omega arith)

double_pow : (q k : ℕ) → q * 2 ^ suc k ≡ q * 2 ^ k * 2
double_pow q k = omega (arith, ap (λ (t : ℕ). q * t) (pow-suc 2 k))

-- Fields that share no bit are put together by `|` as by `+`.
pub or_fields : (k q r : ℕ) → r < 2 ^ k → bit_or (q * 2 ^ k) r ≡ q * 2 ^ k + r
or_fields zero q r h = ground (arith, bit_or-zero q)
or_fields (suc k) q r h = ground (
  arith,
  or_last_bit (q * 2 ^ suc k) r,
  double_pow q k,
  pow-suc 2 k,
  or_fields k q (r / 2) (omega (arith, pow-suc 2 k)),
)

-- A mask of `k` low ones keeps the remainder by `2 ^ k`.
pub and_mask_fields : (k q r : ℕ) → r < 2 ^ k → bit_and (q * 2 ^ k + r) (2 ^ k - 1) ≡ r
and_mask_fields zero q r h = rw bit_and-zero (omega arith)
and_mask_fields (suc k) q r h = ground (
  arith,
  and_last_bit (q * 2 ^ suc k + r) (2 ^ suc k - 1),
  double_pow q k,
  pow-suc 2 k,
  one-le-pow k 2,
  and_mask_fields k q (r / 2) (omega (arith, pow-suc 2 k)),
)

pub and_mask : (k a : ℕ) → bit_and a (2 ^ k - 1) ≡ a % 2 ^ k
and_mask k a = ground (arith, one-le-pow k 2, and_mask_fields k (a / 2 ^ k) (a % 2 ^ k))

-- A mask of high ones keeps the high field and clears the low one.
pub and_high_fields :
    (k q m r : ℕ) → r < 2 ^ k → bit_and (q * 2 ^ k + r) (m * 2 ^ k) ≡ bit_and q m * 2 ^ k
and_high_fields zero q m r h = ground arith
and_high_fields (suc k) q m r h = ground (
  arith,
  and_last_bit (q * 2 ^ suc k + r) (m * 2 ^ suc k),
  double_pow q k,
  double_pow m k,
  double_pow (bit_and q m) k,
  pow-suc 2 k,
  and_high_fields k q m (r / 2) (omega (arith, pow-suc 2 k)),
)

-- A mask of ones from bit `k` up to bit `k + n`.
pub and_high_mask : (k n a : ℕ) → bit_and a ((2 ^ n - 1) * 2 ^ k) ≡ a / 2 ^ k % 2 ^ n * 2 ^ k
and_high_mask k n a = ground (
  arith,
  one-le-pow k 2,
  and_high_fields k (a / 2 ^ k) (2 ^ n - 1) (a % 2 ^ k),
  and_mask n (a / 2 ^ k),
)
