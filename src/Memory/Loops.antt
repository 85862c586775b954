-- ===== src/Memory/Loops.antt =====
-- What `memset` and `memcpy` leave.
use tiny_bios.Prelude.{ℕ, zero, suc, ◌+◌, ◌-◌, ◌<◌, ◌≡◌, arith, u8, ◌&&◌, leb, ltb, if◌then◌else◌}
use tiny_bios.Memory.{Memory, store8, memset_loop, memset, memcpy_loop, memcpy}
use tiny_bios.Memory.Words.{Apart, store8-same, store8-other, store8-lt}

memset_loop_lem :
    (left i s c : ℕ) (m : Memory) (x : ℕ)
    → memset_loop left i s c m x ≡ (if leb (s + i) x && ltb x (s + i + left) then u8 c else m x)
unfolding memset_loop store8
memset_loop_lem zero i s c m x = ground arith
memset_loop_lem (suc left) i s c m x =
    ground (arith, memset_loop_lem left (i + 1) s c (store8 m (s + i) c) x)

-- `memset` sets the `n` bytes from `s` on to the low byte of `c`, and changes no other byte.
pub memset_lem :
    (s c n : ℕ) (m : Memory) (x : ℕ)
    → memset s c n m x ≡ (if leb s x && ltb x (s + n) then u8 c else m x)
unfolding memset
memset_lem s c n m x = ground (arith, memset_loop_lem n 0 s c m x)

-- While the bytes still to be read lie outside those that are written.
memcpy_loop_lem :
    (left i src dst : ℕ) (m : Memory) (x : ℕ)
    → Apart src (i + left) dst (i + left)
    → ((y : ℕ) → m y < 256)
    → memcpy_loop left i src dst m x
      ≡ (if leb (dst + i) x && ltb x (dst + i + left) then m (src + (x - dst)) else m x)
unfolding memcpy_loop
memcpy_loop_lem zero i src dst m x apart bytes = ground arith
memcpy_loop_lem (suc left) i src dst m x apart bytes = ground (
  arith,
  memcpy_loop_lem left (i + 1) src dst (store8 m (dst + i) (m (src + i))) x (omega arith)
      (store8-lt m (dst + i) (m (src + i)) bytes),
  store8-same m (dst + i) (m (src + i)),
  store8-other m (dst + i) (m (src + i)) x,
  store8-other m (dst + i) (m (src + i)) (src + (x - dst)),
  bytes (src + i),
)

-- In a memory of bytes, `memcpy` between ranges that do not overlap copies the `len` bytes from `src` to `dst`, the
-- first argument to the second, and changes no other byte.
pub memcpy_lem :
    (src dst len : ℕ) (m : Memory) (x : ℕ)
    → Apart src len dst len
    → ((y : ℕ) → m y < 256)
    → memcpy src dst len m x ≡ (if leb dst x && ltb x (dst + len) then m (src + (x - dst)) else m x)
unfolding memcpy
memcpy_lem src dst len m x apart bytes =
    ground (arith, memcpy_loop_lem len 0 src dst m x (omega arith) bytes)
