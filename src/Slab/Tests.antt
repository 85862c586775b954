-- ===== src/Slab/Tests.antt =====
-- The slab allocator on a region of 256 bytes with objects of 16 bytes.
use tiny_bios.Prelude.{◌+◌, ◌-◌, ◌*◌, ◌/◌, ◌<◌, ◌≤◌, ◌≡◌, refl, arith, inr}
use tiny_bios.Memory.{store16, load16, Memory, store8, load32, store32, memset, memset_loop}
use tiny_bios.Slab.{
  SlabHeader, header_size, bitmap_size, bitmap_idx, bitmap_bit, bitmap_get, load_header, init_slab,
  slab_overhead, slab_mem, slab_alloc, slab_free, first_clear,
}
use tiny_bios.Slab.Objects.{IsSlab, in_use, Allocated, slab_alloc-Allocated}
use tiny_bios.Slab.Init.{slab_mem-inside, init_slab-IsSlab}
use tiny_bios.Slab.Session.{Session, start, alloc, free, slab_free-slab_alloc, Session-other}

abbrev made : Memory
made = init_slab 0x1000 0x1100 16 (λ _. 0)

abbrev made_header : SlabHeader
made_header = load_header made 0x1000

room_for_one : bitmap_size ((0x1100 - 0x1000) / 16) + header_size < (0x1100 - 0x1000) / 16 * 16
unfolding bitmap_size
room_for_one = omega arith

fifteen : made_header.num_entries ≡ 15
unfolding load_header load16 init_slab bitmap_size store16 store32 load32 memset memset_loop store8
fifteen = refl

made-IsSlab : IsSlab 0x1000 made_header made
made-IsSlab =
    (init_slab-IsSlab 0x1000 0x1100 16 (λ _. 0) (omega arith) (omega arith) (omega arith)
      (omega arith) room_for_one (λ _. omega arith)).0

slab_mem-inside_example :
    (0x1000 + header_size + made_header.bitmap_bytes ≤ slab_mem made_header 0x1000 14)
    × (slab_mem made_header 0x1000 14 + 16 ≤ 0x1100)
    × (14 / 8 < made_header.bitmap_bytes)
slab_mem-inside_example =
    slab_mem-inside 0x1000 0x1100 16 (λ _. 0) (omega arith) (omega arith) (omega arith)
      (omega arith) room_for_one 14 (omega (arith, fifteen))

slab_alloc-Allocated_example : Allocated 0x1000 made_header made (slab_alloc 0x1000 made)
slab_alloc-Allocated_example = slab_alloc-Allocated 0x1000 made_header made made-IsSlab

first_address : (slab_alloc 0x1000 made).address ≡ 0x1010
unfolding slab_alloc load_header load16 init_slab bitmap_size store16 store32 load32 memset
    memset_loop store8 first_clear bitmap_get bitmap_idx bitmap_bit slab_mem slab_overhead
first_address = refl

slab_free-slab_alloc_example :
    in_use 0x1000
      (slab_free 0x1000 (slab_alloc 0x1000 made).address (slab_alloc 0x1000 made).memory)
      3
    ≡ in_use 0x1000 made 3
slab_free-slab_alloc_example =
    slab_free-slab_alloc 0x1000 made_header made made-IsSlab
      (λ null. absurd (omega (arith, first_address, null))) 3

abbrev two_calls :
    Session 0x1000 made_header made
      (slab_free 0x1000 (slab_mem made_header 0x1000 0) (slab_alloc 0x1000 made).memory)
two_calls = free (slab_alloc 0x1000 made).memory 0 (omega (arith, fifteen)) (alloc made start)

Session-other_example :
    slab_free 0x1000 (slab_mem made_header 0x1000 0) (slab_alloc 0x1000 made).memory 0x1004
    ≡ made 0x1004
Session-other_example =
    Session-other 0x1000 made_header made
      (slab_free 0x1000 (slab_mem made_header 0x1000 0) (slab_alloc 0x1000 made).memory) made-IsSlab
      two_calls 0x1004 (inr (omega arith))
