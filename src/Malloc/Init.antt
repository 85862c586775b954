-- ===== src/Malloc/Init.antt =====
-- What `heap_init` sets up.
use tiny_bios.Prelude.{
  ℕ, ◌+◌, ◌-◌, ◌%◌, ◌^◌, ◌≤◌, ◌<◌, ◌≡◌, ◌∙◌, true, false, refl, arith, [], ◌∷◌, u64, sub64,
}
use tiny_bios.Memory.{Memory, store64}
use tiny_bios.Memory.Words.{load64-store64_same, load64-store64-Apart, store64-other, load64_ext}
use tiny_bios.Malloc.{
  heap, heap_first, heap_size, header_size, is_free, set_free, set_size, set_previous, set_next,
  heap_init,
}
use tiny_bios.Malloc.Header.{
  SameBut, fields, set_free-same, set_size-same, set_previous-same, set_next-same, set_free-SameBut,
  set_size-SameBut, set_previous-SameBut, set_next-SameBut,
}
use tiny_bios.Malloc.Blocks.{block, IsHeap}

module _ (m : Memory) (first total : ℕ) where
  abbrev globals : Memory
  globals = store64 (store64 m (heap + 8) first) heap total

  abbrev init1 : Memory
  init1 = set_free first true globals

  abbrev init2 : Memory
  init2 = set_size first (sub64 total header_size) init1

  abbrev init3 : Memory
  init3 = set_previous first 0 init2

  abbrev init4 : Memory
  init4 = set_next first 0 init3

module _ (m : Memory) (first total : ℕ) where
  -- The header is the last to be written.
  header_same : SameBut first 32 (globals m first total) (init4 m first total)
  header_same x apart =
      set_next-SameBut (init3 m first total) first 0 x apart
      ∙ set_previous-SameBut (init2 m first total) first 0 x (omega arith)
      ∙ set_size-SameBut (init1 m first total) first (sub64 total header_size) x apart
      ∙ set_free-SameBut (globals m first total) first true x apart

module _ (m : Memory) (first total : ℕ) (bottom : heap + 16 ≤ first) (top : first < 2 ^ 64)
    (total_top : total < 2 ^ 64) where
  globals_first :
      (m' : Memory) → SameBut first 32 (globals m first total) m' → heap_first m' ≡ first
  unfolding heap_first
  globals_first m' same =
      load64_ext (globals m first total) m' (heap + 8) (λ x p q. same x (omega arith))
      ∙ load64-store64-Apart (store64 m (heap + 8) first) heap total (heap + 8) (omega arith)
      ∙ load64-store64_same m (heap + 8) first top

  globals_size : (m' : Memory) → SameBut first 32 (globals m first total) m' → heap_size m' ≡ total
  unfolding heap_size
  globals_size m' same =
      load64_ext (globals m first total) m' heap (λ x p q. same x (omega arith))
      ∙ load64-store64_same (store64 m (heap + 8) first) heap total total_top

  same1 : SameBut first 32 (globals m first total) (init1 m first total)
  same1 = set_free-SameBut (globals m first total) first true

  same2 : SameBut first 32 (globals m first total) (init2 m first total)
  same2 x apart =
      set_size-SameBut (init1 m first total) first (sub64 total header_size) x apart ∙ same1 x apart

  same3 : SameBut first 32 (globals m first total) (init3 m first total)
  same3 x apart = set_previous-SameBut (init2 m first total) first 0 x (omega arith) ∙ same2 x apart

  init_fields :
      header_size ≤ total
      → fields (init4 m first total) first
        ≡ record { previous = 0; next = 0; size = total - header_size; is_free = true }
  init_fields room = ground (
    arith,
    set_free-same (globals m first total) first true,
    set_size-same (init1 m first total) first (sub64 total header_size),
    set_previous-same (init2 m first total) first 0,
    set_next-same (init3 m first total) first 0,
  )

  null_same : is_free m 0 ≡ false → is_free (init4 m first total) 0 ≡ false
  unfolding is_free
  null_same h =
      rw
        (
          header_same m first total 24 (omega arith),
          store64-other (store64 m (heap + 8) first) heap total 24 (omega arith),
          store64-other m (heap + 8) first 24 (omega arith),
        )
        h

  init_stages :
      (start : ℕ) → u64 (start + 512) ≡ first → heap_init start total m ≡ init4 m first total
  unfolding heap_init
  init_stages start e = rw (
    e,
    globals_first (globals m first total) (λ x p. refl),
    globals_first (init1 m first total) same1,
    globals_first (init2 m first total) same2,
    globals_first (init3 m first total) same3,
  )

-- `heap_init` makes a sound heap of one free block behind sixteen headers' room, where the region is
-- a multiple of 32 bytes that does not reach the end of the address space, and the byte at 24 is 0.
-- That block ends 480 bytes behind the region's end: the start is moved by 512 bytes and the size
-- is lessened by 32 only.
pub heap_init-IsHeap :
    (start total : ℕ) (m : Memory)
    → heap ≤ start
    → 64 ≤ total
    → total % 32 ≡ 0
    → start + 512 + total < 2 ^ 64
    → is_free m 0 ≡ false
    → IsHeap (heap_init start total m) (block (total - header_size) true ∷ [])
      × (heap_first (heap_init start total m) ≡ start + 512)
      × (heap_first (heap_init start total m) + (total - header_size) ≡ start + total + 480)
heap_init-IsHeap start total m low room aligned high null =
    rw (init_stages m (start + 512) total bottom first_top total_top start word) (
      record {
        bottom = rw first_is bottom;
        room = rw size_is (omega arith);
        top = rw (first_is, size_is) high;
        layout =
            rw (first_is, size_is)
              (
                init_fields m (start + 512) total bottom first_top total_top (omega arith),
                omega arith,
                omega arith,
                omega arith,
              );
        apart = (refl, tt);
        null_taken = null_same m (start + 512) total bottom first_top total_top null;
      },
      first_is,
      omega (arith, first_is),
    )
  where
    bottom : heap + 16 ≤ start + 512
    bottom = omega arith

    first_top : start + 512 < 2 ^ 64
    first_top = omega arith

    total_top : total < 2 ^ 64
    total_top = omega arith

    word : u64 (start + 512) ≡ start + 512
    word = omega arith

    first_is : heap_first (init4 m (start + 512) total) ≡ start + 512
    first_is =
        globals_first m (start + 512) total bottom first_top total_top _
          (header_same m (start + 512) total)

    size_is : heap_size (init4 m (start + 512) total) ≡ total
    size_is =
        globals_size m (start + 512) total bottom first_top total_top _
          (header_same m (start + 512) total)
