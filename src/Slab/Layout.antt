-- ===== src/Slab/Layout.antt =====
-- Where the objects of a slab lie.
use tiny_bios.Prelude.{
  ℕ, ◌+◌, ◌-◌, ◌*◌, ◌/◌, ◌^◌, ◌≤◌, ◌<◌, ◌≡◌, inr, ap, ◌∙◌, arith, u16, u32, u64, sub32, sub64,
}
use native.Mathlib.Nat.{
  add-mul, mul-le-mul_right, div-add-mod', mod-lt, mul-div_cancel, add-div_right, div-mul-le_self,
  div-lt_iff_lt-mul, le-div_iff_mul-le, div-le_self,
}
use tiny_bios.Memory.{load16, store16, Memory, load32, store32}
use tiny_bios.Memory.Words.{
  store16-other, load16-store16_same, store16-lt, store32-lt, load32-store32_same, store32-other,
}
use tiny_bios.Memory.Loops.{memset_lem}
use tiny_bios.Slab.{
  SlabHeader, bitmap_size, header_size, load_header, init_slab, slab_overhead, slab_mem, slab_index,
}

-- The overhead is the smallest multiple of the object's size above the header with its bitmap.
pub slab_overhead_lem :
    (h : SlabHeader)
    → 0 < h.allocation_size
    → slab_overhead h
      ≡ (8 + h.bitmap_bytes) / h.allocation_size * h.allocation_size + h.allocation_size
unfolding slab_overhead
slab_overhead_lem h pos =
    omega
      (arith, div-add-mod' (8 + h.bitmap_bytes) h.allocation_size, mod-lt (8 + h.bitmap_bytes) pos)

-- Where no object wraps at the end of the address space, the index of the address of an object is its index.
pub slab_index-slab_mem :
    (h : SlabHeader) (slab idx : ℕ)
    → 0 < h.allocation_size
    → idx < 2 ^ 16
    → idx * h.allocation_size + slab_overhead h + slab < 2 ^ 32
    → slab_index h slab (slab_mem h slab idx) ≡ idx
unfolding slab_index slab_mem
slab_index-slab_mem h slab idx pos small room =
    ground (arith, ap (λ (t : ℕ). t / h.allocation_size) difference, mul-div_cancel idx pos)
  where
    difference :
        sub64
          (sub64 (u32 (idx * h.allocation_size + slab_overhead h + slab)) (slab_overhead h))
          slab
        ≡ idx * h.allocation_size
    difference = ground arith

-- The number of objects that `init_slab` writes for `total` bytes and objects of `a` bytes.
abbrev pub entries_for : (total a : ℕ) → ℕ
entries_for total a = sub64 (total / a) (u64 (u64 (bitmap_size (total / a) + header_size) + a) / a)

-- The header that `init_slab` leaves at the start of its region.
module _ (s e a : ℕ) (m : Memory) (small : a < 2 ^ 16) (low : s + header_size < 2 ^ 32) where
  abbrev num : ℕ
  num = entries_for (sub32 e s) a

  abbrev m1 : Memory
  m1 = store16 m s a

  abbrev m2 : Memory
  m2 = store16 m1 (s + 2) num

  abbrev m3 : Memory
  m3 = store32 m2 (s + 4) (bitmap_size num)

  init_slab-kept : (x : ℕ) → x < s + 8 → init_slab s e a m x ≡ m3 x
  unfolding init_slab
  init_slab-kept x h = rw (memset_lem (u32 (s + 8)) 0 (load32 m3 (s + 4)) m3 x) (ground arith)

  m3-m2 : (x : ℕ) → x < s + 4 → m3 x ≡ m2 x
  m3-m2 x h = store32-other m2 (s + 4) (bitmap_size num) x (inr (omega arith))

  pub init_slab-allocation_size : (load_header (init_slab s e a m) s).allocation_size ≡ a
  unfolding load_header load16
  init_slab-allocation_size = ground (
    arith,
    init_slab-kept s,
    init_slab-kept (s + 1),
    m3-m2 s,
    m3-m2 (s + 1),
    store16-other m1 (s + 2) num s,
    store16-other m1 (s + 2) num (s + 1),
    load16-store16_same m s a,
  )

  pub init_slab-num_entries : (load_header (init_slab s e a m) s).num_entries ≡ u16 num
  unfolding load_header load16
  init_slab-num_entries = ground (
    arith,
    init_slab-kept (s + 2),
    init_slab-kept (s + 2 + 1),
    m3-m2 (s + 2),
    m3-m2 (s + 2 + 1),
    load16-store16_same m1 (s + 2) num,
  )

  pub init_slab-bitmap_bytes :
      (load_header (init_slab s e a m) s).bitmap_bytes ≡ u32 (bitmap_size num)
  unfolding load_header load32
  init_slab-bitmap_bytes = ground (
    arith,
    init_slab-kept (s + 4),
    init_slab-kept (s + 4 + 1),
    init_slab-kept (s + 4 + 2),
    init_slab-kept (s + 4 + 3),
    load32-store32_same m2 (s + 4) (bitmap_size num),
  )

  memset_size : load32 m3 (s + 4) ≡ u32 (bitmap_size num)
  memset_size = load32-store32_same m2 (s + 4) (bitmap_size num)

  pub init_slab-zero :
      (y : ℕ)
      → s + header_size ≤ y
      → y < s + header_size + (load_header (init_slab s e a m) s).bitmap_bytes
      → init_slab s e a m y ≡ 0
  unfolding init_slab
  init_slab-zero y at_least under =
      rw (memset_lem (u32 (s + 8)) 0 (load32 m3 (s + 4)) m3 y)
        (ground (arith, memset_size, init_slab-bitmap_bytes))

  m3-lt : ((y : ℕ) → m y < 256) → (y : ℕ) → m3 y < 256
  m3-lt bytes =
      store32-lt m2 (s + 4) (bitmap_size num) (store16-lt m1 (s + 2) num (store16-lt m s a bytes))

  pub init_slab-lt : ((y : ℕ) → m y < 256) → (y : ℕ) → init_slab s e a m y < 256
  unfolding init_slab
  init_slab-lt bytes y =
      rw (memset_lem (u32 (s + 8)) 0 (load32 m3 (s + 4)) m3 y) (ground (arith, m3-lt bytes y))

div_mono : (x y a : ℕ) → 0 < a → x ≤ y → x / a ≤ y / a
div_mono x y a pos h = (le-div_iff_mul-le pos).1 (omega (arith, div-mul-le_self x a))

-- Why the objects fit: `n` of them and the overhead `o` below, in a region for `k` objects.
pub room_lem :
    (k n o ov a i : ℕ)
    → 0 < a
    → o ≤ ov
    → ov < k * a
    → n ≡ k - (ov + a) / a
    → i ≤ n
    → i * a + (o / a * a + a) ≤ k * a
room_lem k n o ov a i pos below fits eq h =
    omega (arith, mul-le-mul_right a count, add-mul (i + o / a) 1 a, add-mul i (o / a) a)
  where
    ov_small : ov / a < k
    ov_small = (div-lt_iff_lt-mul pos).1 fits

    count : i + o / a + 1 ≤ k
    count = ground (arith, ov_small, add-div_right ov pos, div_mono o ov a pos below)

-- Nothing wraps in the arithmetic of `init_slab` where the region has room for one object.
module _ (total a : ℕ) (pos : 0 < a) (small : a < 2 ^ 16) (total_lt : total < 2 ^ 32)
    (fits : bitmap_size (total / a) + header_size < total / a * a) where
  overhead_small : (bitmap_size (total / a) + header_size + a) / a ≤ total / a
  overhead_small = ground (
    arith,
    add-div_right (bitmap_size (total / a) + header_size) pos,
    (div-lt_iff_lt-mul pos).1 fits,
  )

  pub bitmap_small : bitmap_size (total / a) < 2 ^ 32
  unfolding bitmap_size
  bitmap_small = omega (arith, div-le_self total a)

  pub entries_for-plain :
      entries_for total a ≡ total / a - (bitmap_size (total / a) + header_size + a) / a
  entries_for-plain =
      ap (λ (t : ℕ). sub64 (total / a) (t / a)) plain
      ∙ omega (arith, overhead_small, div-le_self total a)
    where
      plain :
          u64 (u64 (bitmap_size (total / a) + header_size) + a)
          ≡ bitmap_size (total / a) + header_size + a
      plain = omega (arith, bitmap_small)

  pub bitmap_entries-le : bitmap_size (entries_for total a) ≤ bitmap_size (total / a)
  unfolding bitmap_size
  bitmap_entries-le = omega (arith, entries_for-plain, div-le_self total a)
