-- ===== src/Malloc/Tests.antt =====
-- Runs of the allocator from start-up, and its theorems at that heap.
use tiny_bios.Prelude.{
  ℕ, ◌+◌, ◌-◌, ◌≡◌, true, false, refl, arith, List, [], ◌∷◌, Option, some, none,
}
use tiny_bios.Memory.{Memory, load64, load32, store64, store32, store8}
use tiny_bios.Malloc.{
  heap, heap_first, header_size, heap_init, is_free, next, aligned_size, Outcome, done, out_of_fuel,
  malloc, find_block, get_free_block, ptr_for_header, set_free, set_size, set_previous, set_next,
  size, free,
}
use tiny_bios.Malloc.Blocks.{block, Block, IsHeap, FirstFit, here}
use tiny_bios.Malloc.Refine.{Granted, malloc-Granted}
use tiny_bios.Malloc.Init.{heap_init-IsHeap}
use tiny_bios.Malloc.Exhausted.{malloc_never_returns}
use tiny_bios.Malloc.Free.{Freed, Released, free-Released}
use tiny_bios.Malloc.Broken.{malloc-free_unsound}

abbrev zeros : Memory
zeros x = 0

abbrev region : ℕ
region = 0x70000 - 0x8000

-- The memory once `c_main` has called `heap_init`.
booted : Memory
booted = heap_init heap region zeros

zeros_taken : is_free zeros 0 ≡ false
unfolding is_free
zeros_taken = refl

heap_init-IsHeap_example :
    IsHeap (heap_init heap region zeros) (block (region - header_size) true ∷ [])
    × (heap_first (heap_init heap region zeros) ≡ heap + 512)
    × (heap_first (heap_init heap region zeros) + (region - header_size) ≡ heap + region + 480)
heap_init-IsHeap_example =
    heap_init-IsHeap heap region zeros (omega arith) (omega arith) (omega arith) (omega arith)
      zeros_taken

booted-IsHeap : IsHeap booted (block (region - header_size) true ∷ [])
unfolding booted
booted-IsHeap = heap_init-IsHeap_example.0

abbrev after_first : List Block
after_first = block 160 false ∷ block (region - header_size - 160) true ∷ []

first_fit : FirstFit (aligned_size 100) (block (region - header_size) true ∷ []) 0 after_first
unfolding aligned_size
first_fit = here (block (region - header_size) true) [] after_first refl (omega arith) refl

malloc-Granted_example :
    (m' : Memory) × (malloc 1 100 booted ≡ done (heap_first booted + 0 + 32) m')
    × Granted booted
        (block (region - header_size) true ∷ [])
        after_first
        100
        (heap_first booted + 0 + 32)
        m'
malloc-Granted_example =
    malloc-Granted booted (block (region - header_size) true ∷ []) after_first 100 0 booted-IsHeap
      (omega arith) first_fit 1 (omega arith)

null_next : next booted 0 ≡ 0
unfolding booted next heap_init heap_first set_free set_size set_previous set_next load64 load32
    store64 store32 store8
null_next = refl

malloc_never_returns_example : malloc 1000 0x70000 booted ≡ out_of_fuel
unfolding aligned_size
malloc_never_returns_example =
    malloc_never_returns booted (block (region - header_size) true) [] 0x70000 1000 booted-IsHeap
      (omega arith) null_next (refl, tt)

abbrev pointer_of : Outcome ℕ → Option ℕ
pointer_of (done p m) = some p
pointer_of r = none

-- The first pointer is 32 bytes behind the first header, at 0x8200.
first_pointer : pointer_of (malloc 1 100 booted) ≡ some 0x8220
unfolding booted heap_init malloc find_block get_free_block aligned_size is_free size ptr_for_header
    heap_first set_free set_size set_previous set_next load64 load32 store64 store32 store8
first_pointer = refl

-- Freeing the first allocation.
malloc-free_unsound_example :
    (m1 m2 : Memory) × (malloc 2 100 booted ≡ done (heap_first booted + 32) m1)
    × (free 3 (heap_first booted + 32) m1 ≡ done tt m2)
    × ((after : List Block) → ¬ IsHeap m2 after)
unfolding aligned_size
malloc-free_unsound_example =
    malloc-free_unsound booted (block (region - header_size) true) [] 100 2 booted-IsHeap refl
      (omega arith) (omega arith) (omega arith)

-- The whole heap given out in one piece.
abbrev whole : List Block
whole = block (region - header_size) false ∷ []

whole_fit : FirstFit (aligned_size (region - 160)) (block (region - header_size) true ∷ []) 0 whole
unfolding aligned_size
whole_fit = here (block (region - header_size) true) [] whole refl (omega arith) refl

given :
    (m' : Memory) × (malloc 1 (region - 160) booted ≡ done (heap_first booted + 0 + 32) m')
    × Granted booted
        (block (region - header_size) true ∷ [])
        whole
        (region - 160)
        (heap_first booted + 0 + 32)
        m'
given =
    malloc-Granted booted (block (region - header_size) true ∷ []) whole (region - 160) 0
      booted-IsHeap (omega arith) whole_fit 1 (omega arith)

free-Released_example :
    (m' : Memory) × (free 1 (heap_first given.0 + 0 + 32) given.0 ≡ done tt m')
    × Released given.0 (block (region - header_size) true ∷ []) (heap_first given.0 + 0) m'
free-Released_example =
    free-Released given.0 whole (block (region - header_size) true ∷ []) 0 given.2.IsHeap-after
      (Freed.here (block (region - header_size) false) [] _ refl refl refl refl) 0
