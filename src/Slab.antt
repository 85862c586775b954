-- ===== src/Slab.antt =====
-- src/include/mm/bitmap.h, src/include/mm/slab.h and src/mm/slab.c: the allocator of objects of one
-- size. The header, with the bitmap behind it, lies in the memory at the address `slab`.
pub mod Bitmap
pub mod Layout
pub mod Objects
pub mod Init
pub mod Session
mod Tests
use tiny_bios.Prelude.{
  ℕ, zero, suc, ◌+◌, ◌-◌, ◌*◌, ◌/◌, ◌%◌, ◌^◌, bit_and, bit_or, Bool, ◌!=◌, ltb, u16, u32, u64,
  sub32, sub64, if◌then◌else◌, ◌<<◌,
}
use tiny_bios.Memory.{Memory, load16, store16, store8, load32, store32, memset}

-- The bitmap, at the address `bitmap`.
unfoldable pub bitmap_size : ℕ → ℕ
bitmap_size num_entries = u64 (num_entries + 7) / 8

unfoldable pub bitmap_idx : ℕ → ℕ
bitmap_idx entry = entry / 8

unfoldable pub bitmap_bit : ℕ → ℕ
bitmap_bit entry = 1 << (entry % 8)

unfoldable pub bitmap_get : Memory → (bitmap entry : ℕ) → Bool
bitmap_get m bitmap entry = bit_and (m (bitmap + bitmap_idx entry)) (bitmap_bit entry) != 0

unfoldable pub bitmap_set : (bitmap entry : ℕ) → Memory → Memory
bitmap_set bitmap entry m =
    store8 m (bitmap + bitmap_idx entry) (bit_or (m (bitmap + bitmap_idx entry)) (bitmap_bit entry))

-- `~` of a byte, stored into a byte, has the other eight bits.
unfoldable pub bitmap_clear : (bitmap entry : ℕ) → Memory → Memory
bitmap_clear bitmap entry m =
    store8 m (bitmap + bitmap_idx entry)
      (bit_and (m (bitmap + bitmap_idx entry)) (0xff - bitmap_bit entry))

pub record SlabHeader : Type 0 where
  pub allocation_size : ℕ
  pub num_entries : ℕ
  pub bitmap_bytes : ℕ

abbrev pub header_size : ℕ
header_size = 8

-- The header's fields, as they lie in memory.
unfoldable pub load_header : Memory → ℕ → SlabHeader
load_header m slab = record {
  allocation_size = load16 m slab;
  num_entries = load16 m (slab + 2);
  bitmap_bytes = load32 m (slab + 4);
}

unfoldable pub init_slab : (mem_start mem_end allocation_size : ℕ) → Memory → Memory
init_slab mem_start mem_end allocation_size m =
    let mem_total = sub32 mem_end mem_start in
    let entries = mem_total / allocation_size in
    let overhead = u64 (bitmap_size entries + header_size) in
    let num_entries = sub64 entries (u64 (overhead + allocation_size) / allocation_size) in
    let m1 = store16 m mem_start allocation_size in
    let m2 = store16 m1 (mem_start + 2) num_entries in
    let m3 = store32 m2 (mem_start + 4) (bitmap_size num_entries) in
    memset (u32 (mem_start + header_size)) 0 (load32 m3 (mem_start + 4)) m3

unfoldable pub slab_overhead : SlabHeader → ℕ
slab_overhead h =
    let overhead = header_size + h.bitmap_bytes in
    let allocation_size = h.allocation_size in
    overhead + (allocation_size - overhead % allocation_size)

unfoldable pub slab_mem : SlabHeader → (slab idx : ℕ) → ℕ
slab_mem h slab idx = u32 (idx * h.allocation_size + slab_overhead h + slab)

unfoldable pub slab_index : SlabHeader → (slab mem : ℕ) → ℕ
slab_index h slab mem = u16 (sub64 (sub64 mem (slab_overhead h)) slab / h.allocation_size)

-- The index at which the loop of `slab_alloc` stops, with so many indexes left.
unfoldable pub first_clear : (left idx : ℕ) → (bitmap : ℕ) → Memory → ℕ
first_clear zero idx bitmap m = idx
first_clear (suc left) idx bitmap m =
    let rest = first_clear left (idx + 1) bitmap m in if bitmap_get m bitmap idx then rest else idx

pub record Allocation : Type 0 where
  pub address : ℕ
  pub memory : Memory

unfoldable pub slab_alloc : (slab : ℕ) → Memory → Allocation
slab_alloc slab m =
    let h = load_header m slab in
    let bitmap = u32 (slab + header_size) in
    let idx = first_clear (h.num_entries) 0 bitmap m in
    if ltb idx (h.num_entries)
    then record { address = slab_mem h slab idx; memory = bitmap_set bitmap idx m }
    else record { address = 0; memory = m }

unfoldable pub slab_free : (slab mem : ℕ) → Memory → Memory
slab_free slab mem m =
    let h = load_header m slab in bitmap_clear (u32 (slab + header_size)) (slab_index h slab mem) m
