-- ===== src/Memory/Words.antt =====
-- What a load reads after a store.
use tiny_bios.Prelude.{ℕ, ◌+◌, ◌/◌, ◌%◌, ◌^◌, ◌≤◌, ◌<◌, ◌≡◌, ◌≢◌, ◌⊎◌, arith, u8, u16}
use tiny_bios.Memory.{Memory, store8, load16, store16, load32, load64, store32, store64}

-- Two ranges that do not overlap.
abbrev pub Apart : (a n b k : ℕ) → Type 0
Apart a n b k = (a + n ≤ b) ⊎ (b + k ≤ a)

module _ (m : Memory) (a v : ℕ) where
  pub store8-same : store8 m a v a ≡ u8 v
  unfolding store8
  store8-same = ground arith

  pub store8-other : (x : ℕ) → x ≢ a → store8 m a v x ≡ m x
  unfolding store8
  store8-other x h = ground arith

  pub store32-other : (x : ℕ) → Apart a 4 x 1 → store32 m a v x ≡ m x
  unfolding store32 store8
  store32-other x h = ground arith

  pub load32-store32_same : load32 (store32 m a v) a ≡ v % 2 ^ 32
  unfolding load32 store32 store8
  load32-store32_same = ground arith

  load32-store32-Apart : (b : ℕ) → Apart a 4 b 4 → load32 (store32 m a v) b ≡ load32 m b
  unfolding load32
  load32-store32-Apart b h =
      ground (
        arith,
        store32-other b,
        store32-other (b + 1),
        store32-other (b + 2),
        store32-other (b + 3),
      )

  load32-store8-Apart : (b : ℕ) → Apart a 1 b 4 → load32 (store8 m a v) b ≡ load32 m b
  unfolding load32
  load32-store8-Apart b h =
      ground
        (arith, store8-other b, store8-other (b + 1), store8-other (b + 2), store8-other (b + 3))

pub store8-lt : (m : Memory) (a v : ℕ) → ((y : ℕ) → m y < 256) → (y : ℕ) → store8 m a v y < 256
unfolding store8
store8-lt m a v bytes y = ground (arith, bytes y)

module _ (m : Memory) (a v : ℕ) where
  pub store16-other : (x : ℕ) → x ≢ a → x ≢ a + 1 → store16 m a v x ≡ m x
  unfolding store16
  store16-other x h k =
      ground (arith, store8-other m a v x, store8-other (store8 m a v) (a + 1) (v / 2 ^ 8) x)

  pub store16-lt : ((y : ℕ) → m y < 256) → (y : ℕ) → store16 m a v y < 256
  unfolding store16
  store16-lt bytes = store8-lt (store8 m a v) (a + 1) (v / 2 ^ 8) (store8-lt m a v bytes)

  pub store32-lt : ((y : ℕ) → m y < 256) → (y : ℕ) → store32 m a v y < 256
  unfolding store32
  store32-lt bytes =
      store8-lt _ (a + 3) (v / 2 ^ 24)
        (store8-lt _ (a + 2) (v / 2 ^ 16) (store8-lt _ (a + 1) (v / 2 ^ 8) (store8-lt m a v bytes)))

  pub load16-store16_same : load16 (store16 m a v) a ≡ u16 v
  unfolding load16 store16 store8
  load16-store16_same = ground arith

module _ (m : Memory) (a v : ℕ) where
  pub store64-other : (x : ℕ) → Apart a 8 x 1 → store64 m a v x ≡ m x
  unfolding store64
  store64-other x h =
      ground (arith, store32-other (store32 m a v) (a + 4) (v / 2 ^ 32) x, store32-other m a v x)

  pub load64-store64_same : v < 2 ^ 64 → load64 (store64 m a v) a ≡ v
  unfolding store64 load64
  load64-store64_same h = ground (
    arith,
    load32-store32-Apart (store32 m a v) (a + 4) (v / 2 ^ 32) a,
    load32-store32_same (store32 m a v) (a + 4) (v / 2 ^ 32),
    load32-store32_same m a v,
  )

  pub load64-store64-Apart : (b : ℕ) → Apart a 8 b 8 → load64 (store64 m a v) b ≡ load64 m b
  unfolding store64 load64
  load64-store64-Apart b h = ground (
    arith,
    load32-store32-Apart (store32 m a v) (a + 4) (v / 2 ^ 32) b,
    load32-store32-Apart (store32 m a v) (a + 4) (v / 2 ^ 32) (b + 4),
    load32-store32-Apart m a v b,
    load32-store32-Apart m a v (b + 4),
  )

  pub load64-store8-Apart : (b : ℕ) → Apart a 1 b 8 → load64 (store8 m a v) b ≡ load64 m b
  unfolding load64
  load64-store8-Apart b h =
      ground (arith, load32-store8-Apart m a v b, load32-store8-Apart m a v (b + 4))

-- A load depends on its eight bytes only.
pub load64_ext :
    (m m' : Memory) (a : ℕ) → ((x : ℕ) → a ≤ x → x < a + 8 → m' x ≡ m x) → load64 m' a ≡ load64 m a
unfolding load64 load32
load64_ext m m' a same = ground (
  arith,
  same a,
  same (a + 1),
  same (a + 2),
  same (a + 3),
  same (a + 4),
  same (a + 4 + 1),
  same (a + 4 + 2),
  same (a + 4 + 3),
)

-- Eight zero bytes.
pub load64-zero : (m : Memory) (a : ℕ) → ((x : ℕ) → a ≤ x → x < a + 8 → m x ≡ 0) → load64 m a ≡ 0
unfolding load64 load32
load64-zero m a zeros = ground (
  arith,
  zeros a,
  zeros (a + 1),
  zeros (a + 2),
  zeros (a + 3),
  zeros (a + 4),
  zeros (a + 4 + 1),
  zeros (a + 4 + 2),
  zeros (a + 4 + 3),
)
