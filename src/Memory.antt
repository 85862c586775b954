-- ===== src/Memory.antt =====
-- The machine's memory, one byte to an address, and the loops of src/stdlib/string.c over it.
-- A load or store of several bytes is little-endian; its address is not wrapped at the end of memory.
pub mod Words
pub mod Loops
use tiny_bios.Prelude.{ℕ, zero, suc, ◌+◌, ◌*◌, ◌/◌, ◌%◌, ◌^◌, ◌==◌, u8, if◌then◌else◌}

abbrev pub Memory : Type 0
Memory = ℕ → ℕ

unfoldable pub store8 : Memory → ℕ → ℕ → Memory
store8 m a v x = if x == a then u8 v else m x

unfoldable pub load16 : Memory → ℕ → ℕ
load16 m a = m a + m (a + 1) * 2 ^ 8

unfoldable pub load32 : Memory → ℕ → ℕ
load32 m a = m a + m (a + 1) * 2 ^ 8 + m (a + 2) * 2 ^ 16 + m (a + 3) * 2 ^ 24

unfoldable pub load64 : Memory → ℕ → ℕ
load64 m a = load32 m a + load32 m (a + 4) * 2 ^ 32

unfoldable pub store16 : Memory → ℕ → ℕ → Memory
store16 m a v = store8 (store8 m a v) (a + 1) (v / 2 ^ 8)

unfoldable pub store32 : Memory → ℕ → ℕ → Memory
store32 m a v =
    store8 (store8 (store8 (store8 m a v) (a + 1) (v / 2 ^ 8)) (a + 2) (v / 2 ^ 16)) (a + 3)
      (v / 2 ^ 24)

unfoldable pub store64 : Memory → ℕ → ℕ → Memory
store64 m a v = store32 (store32 m a v) (a + 4) (v / 2 ^ 32)

-- `for (i = 0; i < n; i++) dst[i] = (unsigned char)c;` at index `i`, with `left` rounds left
unfoldable pub memset_loop : (left i : ℕ) → (s c : ℕ) → Memory → Memory
memset_loop zero i s c m = m
memset_loop (suc left) i s c m = memset_loop left (i + 1) s c (store8 m (s + i) c)

unfoldable pub memset : (s c n : ℕ) → Memory → Memory
memset s c n m = memset_loop n 0 s c m

-- `memcpy(src, dst, len)` of this library takes the source first.
unfoldable pub memcpy_loop : (left i : ℕ) → (src dst : ℕ) → Memory → Memory
memcpy_loop zero i src dst m = m
memcpy_loop (suc left) i src dst m =
    memcpy_loop left (i + 1) src dst (store8 m (dst + i) (m (src + i)))

unfoldable pub memcpy : (src dst len : ℕ) → Memory → Memory
memcpy src dst len m = memcpy_loop len 0 src dst m
