-- ===== src/Malloc/Refine.antt =====
-- `malloc` is a first-fit allocation on the list of blocks.
use tiny_bios.Prelude.{
  ℕ, ◌+◌, ◌-◌, ◌%◌, ◌^◌, ◌≤◌, ◌<◌, ◌≡◌, false, arith, List, u64, length, some, ◌==◌,
}
use tiny_bios.Memory.{Memory}
use tiny_bios.Memory.Words.{load64_ext}
use tiny_bios.Malloc.{
  heap, heap_first, heap_size, is_free, get_free_block, allocate_block, aligned_size,
  ptr_for_header, done, malloc,
}
use native.Mathlib.Nat.{le_refl}
use tiny_bios.Malloc.Blocks.{Block, InUse, IsHeap, FirstFit}
use tiny_bios.Malloc.Walk.{Bounds, Allocated, walk-Allocated, find_block-FirstFit}

-- The request that the allocator makes of its blocks: the header, and room up to a multiple of 32.
pub aligned_size_lem :
    (wanted : ℕ)
    → wanted + 64 < 2 ^ 64
    → (aligned_size wanted % 32 ≡ 0)
      × (wanted + 32 < aligned_size wanted)
      × (aligned_size wanted ≤ wanted + 64)
unfolding aligned_size
aligned_size_lem wanted small = omega arith

pub heap_Bounds :
    (m : Memory) (bs : List Block) (wanted : ℕ)
    → IsHeap m bs
    → wanted + 64 < 2 ^ 64
    → Bounds m (heap_first m + heap_size m - 32) (aligned_size wanted)
heap_Bounds m bs wanted hp small = record {
  wanted_min = omega (arith, aligned_size_lem wanted small);
  wanted_mod = (aligned_size_lem wanted small).0;
  bottom = hp.bottom;
  limit_is = omega (arith, hp.room);
  top = omega (arith, hp.room, hp.top);
  null_taken = hp.null_taken;
}

-- What `malloc` gives: a pointer to `wanted` bytes that were not in use and now are, in a heap as
-- sound as before, with every payload in use kept.
pub record Granted (m : Memory) (bs bs' : List Block) (wanted p : ℕ) (m' : Memory) : Type 0 where
  pub IsHeap-after : IsHeap m' bs'
  pub same_first : heap_first m' ≡ heap_first m
  pub fresh :
      (x : ℕ) → p ≤ x → x < p + wanted → InUse (heap_first m) bs' x × ¬ InUse (heap_first m) bs x
  pub kept : (x : ℕ) → InUse (heap_first m) bs x → (m' x ≡ m x) × InUse (heap_first m) bs' x

module _ (m : Memory) (bs bs' : List Block) (wanted off : ℕ) (hp : IsHeap m bs)
    (small : wanted + 64 < 2 ^ 64) (f : FirstFit (aligned_size wanted) bs off bs') where
  abbrev limit : ℕ
  limit = heap_first m + heap_size m - 32

  bounds : Bounds m limit (aligned_size wanted)
  bounds = heap_Bounds m bs wanted hp small

  abbrev after : Memory
  after = allocate_block (heap_first m + off) (aligned_size wanted) m

  allocated : Allocated m 0 (heap_first m) bs bs' off limit (aligned_size wanted) after
  allocated =
      walk-Allocated m limit (aligned_size wanted) bounds 0 (heap_first m) bs bs' off f hp.layout
        hp.apart (le_refl _)

  first_after : heap_first after ≡ heap_first m
  unfolding heap_first
  first_after =
      load64_ext m after (heap + 8)
        (λ x p q. allocated.same_below x (omega arith) (omega (arith, hp.bottom)))

  size_after : heap_size after ≡ heap_size m
  unfolding heap_size
  size_after =
      load64_ext m after heap
        (λ x p q. allocated.same_below x (omega arith) (omega (arith, hp.bottom)))

  null_after : is_free after 0 ≡ false
  unfolding is_free
  null_after = rw (allocated.same_below 24 (omega arith) (omega (arith, hp.bottom))) hp.null_taken

  IsHeap-after : IsHeap after bs'
  IsHeap-after = record {
    bottom = rw first_after hp.bottom;
    room = rw size_after hp.room;
    top = rw (first_after, size_after) hp.top;
    layout = rw (first_after, size_after) allocated.layout;
    apart = allocated.apart;
    null_taken = null_after;
  }

  found :
      (fuel : ℕ)
      → length bs ≤ fuel
      → get_free_block fuel (aligned_size wanted) m ≡ some (heap_first m + off)
  unfolding get_free_block
  found fuel enough =
      find_block-FirstFit m limit (aligned_size wanted) bounds fuel 0 (heap_first m) bs bs' off f
        hp.layout enough

  malloc_runs :
      (fuel : ℕ) → length bs ≤ fuel → malloc fuel wanted m ≡ done (heap_first m + off + 32) after
  unfolding malloc ptr_for_header
  malloc_runs fuel enough =
      let not_null : (heap_first m + off == 0) ≡ false = ground (arith, hp.bottom) in
      let word : u64 (heap_first m + off + 32) ≡ heap_first m + off + 32 =
        omega (arith, allocated.inside, hp.top) in
      rw (found fuel enough, malloc, not_null, word)

  -- Where the first fit exists and is not exact, `malloc` ends on as much fuel as there are blocks,
  -- and returns the payload of that block: all of its `wanted` bytes are newly in use, every byte
  -- that was in use keeps its value and stays in use, and the heap is sound again, with the chosen
  -- block split by the first-fit rule.
  pub malloc-Granted :
      (fuel : ℕ)
      → length bs ≤ fuel
      → (m' : Memory) × (malloc fuel wanted m ≡ done (heap_first m + off + 32) m')
        × Granted m bs bs' wanted (heap_first m + off + 32) m'
  malloc-Granted fuel enough = (
    after,
    malloc_runs fuel enough,
    record {
      IsHeap-after = IsHeap-after;
      same_first = first_after;
      fresh = λ x p q. allocated.granted x p (omega (arith, aligned_size_lem wanted small));
      kept = allocated.same_in_use;
    },
  )
