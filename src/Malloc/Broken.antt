-- ===== src/Malloc/Broken.antt =====
-- What `free` does to a block in front of a free one, as `malloc` leaves it when it splits a block.
use tiny_bios.Prelude.{
  ℕ, zero, suc, ◌+◌, ◌-◌, ◌^◌, ◌≤◌, ◌<◌, ◌≡◌, ◌∙◌, refl, sym, ap, arith, true, false, List, [], ◌∷◌,
  length, lt→ltb, Bool-cases, inl, inr,
}
use tiny_bios.Memory.{Memory}
use tiny_bios.Memory.Words.{load64_ext}
use tiny_bios.Malloc.{
  heap, heap_first, heap_size, next, is_free, set_free, header_for_ptr, hdr_addr_is_valid,
  next_hdr_is_valid, previous_hdr_is_valid, done, fuse_blocks, fuse_forward, fuse_backward,
  fuse_walkthrough, delete_block, aligned_size, malloc, free,
}
use tiny_bios.Malloc.Header.{Fields, fields, fields-Apart, set_free-same, set_free-SameBut}
use tiny_bios.Malloc.Blocks.{Block, block, IsHeap, Layout-le, FirstFit, here}
use tiny_bios.Malloc.Fuse.{fuse_blocks-erases, fuse_blocks-other}
use tiny_bios.Malloc.Refine.{malloc-Granted}

module _ (m : Memory) (b c : Block) (bs : List Block) (hp : IsHeap m (b ∷ c ∷ bs))
    (used : b.is_free ≡ false) (free_behind : c.is_free ≡ true) where
  abbrev h : ℕ
  h = heap_first m

  abbrev n : ℕ
  n = h + b.size

  abbrev flagged : Memory
  flagged = set_free h true m

  flagged-fields : fields flagged h ≡ record (fields m h) { is_free = true }
  flagged-fields = set_free-same m h true

  flagged_next : next flagged h ≡ n
  flagged_next =
      ap (λ (g : Fields). g.next) flagged-fields ∙ ap (λ (g : Fields). g.next) hp.layout.0

  n_free : is_free flagged n ≡ true
  n_free =
      ap (λ (g : Fields). g.is_free)
        (fields-Apart h 32 n (set_free-SameBut m h true) (omega (arith, hp.layout.1))
          ∙ hp.layout.3.0)
      ∙ free_behind

  high : n + 32 + 32 ≤ h + heap_size m
  high = omega (arith, hp.layout.3.1, hp.room, Layout-le m n (n + c.size) bs _ hp.layout.3.3)

  flagged_first : heap_first flagged ≡ h
  unfolding heap_first
  flagged_first =
      load64_ext m flagged (heap + 8)
        (λ x p q. set_free-SameBut m h true x (omega (arith, hp.bottom)))

  flagged_size : heap_size flagged ≡ heap_size m
  unfolding heap_size
  flagged_size =
      load64_ext m flagged heap (λ x p q. set_free-SameBut m h true x (omega (arith, hp.bottom)))

  n_valid : next_hdr_is_valid flagged h ≡ true
  unfolding next_hdr_is_valid hdr_addr_is_valid
  n_valid =
      rw (flagged_next, flagged_first, flagged_size) (lt→ltb _ _ (omega (arith, hp.top, high)))

  abbrev merged : Memory
  merged = fuse_blocks h (next flagged h) flagged

  erased : fields merged h ≡ record { previous = 0; next = 0; size = 0; is_free = false }
  erased =
      (fuse_blocks-erases flagged h (rw flagged_next (omega (arith, hp.layout.1)))
        (rw flagged_next (omega (arith, hp.top, high)))).0

  low_same : (x : ℕ) → x < h → merged x ≡ m x
  low_same x lt =
      fuse_blocks-other flagged h (rw flagged_next (omega (arith, hp.layout.1)))
        (rw flagged_next (omega (arith, hp.top, high))) x (omega arith)
        (rw flagged_next (omega (arith, hp.layout.1)))
      ∙ set_free-SameBut m h true x (omega arith)

  null_merged : is_free merged 0 ≡ false
  unfolding is_free
  null_merged = rw (low_same 24 (omega (arith, hp.bottom))) hp.null_taken

  merged_first : heap_first merged ≡ h
  unfolding heap_first
  merged_first = load64_ext m merged (heap + 8) (λ x p q. low_same x (omega (arith, hp.bottom)))

  merged_size : heap_size merged ≡ heap_size m
  unfolding heap_size
  merged_size = load64_ext m merged heap (λ x p q. low_same x (omega (arith, hp.bottom)))

  forward_stops : (fuel : ℕ) → fuse_forward (suc fuel) h merged ≡ done tt merged
  unfolding fuse_forward
  forward_stops fuel = elim (Bool-cases (next_hdr_is_valid merged h)) [
    | inl ok ↦ rw (ok, ap (λ (g : Fields). g.next) erased, null_merged) refl
    | inr out ↦ rw out refl
  ]

  backward_stops : (fuel : ℕ) → fuse_backward (suc fuel) h merged ≡ done tt merged
  unfolding fuse_backward
  backward_stops fuel = elim (Bool-cases (previous_hdr_is_valid merged h)) [
    | inl ok ↦ rw (ok, ap (λ (g : Fields). g.previous) erased, null_merged) refl
    | inr out ↦ rw out refl
  ]

  next_free : is_free flagged (next flagged h) ≡ true
  next_free = rw flagged_next n_free

  first_round : (rounds : ℕ) → fuse_forward (suc rounds) h flagged ≡ fuse_forward rounds h merged
  unfolding fuse_forward
  first_round rounds = rw (n_valid, next_free) refl

  forward_lem : (fuel : ℕ) → fuse_forward (suc (suc fuel)) h flagged ≡ done tt merged
  forward_lem fuel = first_round (suc fuel) ∙ forward_stops fuel

  header_lem : header_for_ptr (h + 32) ≡ h
  unfolding header_for_ptr
  header_lem = omega (arith, high, hp.top)

  free_runs : (fuel : ℕ) → free (suc (suc fuel)) (h + 32) m ≡ done tt merged
  unfolding free delete_block fuse_walkthrough
  free_runs fuel =
      rw (header_lem, ap (λ (g : Fields). g.is_free) hp.layout.0, used, forward_lem fuel)
        (backward_stops (suc fuel))

  unsound : (after : List Block) → ¬ IsHeap merged after
  unsound [] hp' = omega (arith, hp'.layout, merged_first, merged_size, high)
  unsound (d ∷ after) hp' =
      let sizes = ap (λ (g : Fields). g.size) (ap (fields merged) merged_first ∙ erased) in
      omega (arith, ap (λ (g : Fields). g.size) hp'.layout.0, sizes, hp'.layout.1)

  free-unsound :
      (fuel : ℕ)
      → (m2 : Memory) × (free (suc (suc fuel)) (h + 32) m ≡ done tt m2)
        × ((after : List Block) → ¬ IsHeap m2 after)
  free-unsound fuel = (merged, free_runs fuel, unsound)

-- On a sound heap whose first block is free and large enough to be split, freeing what `malloc` gave
-- ends, and leaves a memory that is no sound heap for any list of blocks: the block is merged with
-- the free one behind it, and its header is erased. Two rounds per merge are enough.
pub malloc-free_unsound :
    (m : Memory) (b : Block) (bs : List Block) (wanted fuel : ℕ)
    → IsHeap m (b ∷ bs)
    → b.is_free ≡ true
    → wanted + 64 < 2 ^ 64
    → aligned_size wanted + 96 < b.size
    → suc (length bs) ≤ fuel
    → (m1 m2 : Memory) × (malloc fuel wanted m ≡ done (heap_first m + 32) m1)
      × (free (suc fuel) (heap_first m + 32) m1 ≡ done tt m2)
      × ((after : List Block) → ¬ IsHeap m2 after)
malloc-free_unsound m b bs wanted zero hp is_free small large enough = absurd (omega arith)
malloc-free_unsound m b bs wanted (suc fuel) hp is_free small large enough =
    let taken = block (aligned_size wanted) false in
    let left = block (b.size - aligned_size wanted) true in
    let fit : FirstFit (aligned_size wanted) (b ∷ bs) 0 (taken ∷ left ∷ bs) =
      here b bs (taken ∷ left ∷ bs) is_free (omega arith) (rw (lt→ltb _ _ large) refl) in
    let (m1, runs, granted) =
      malloc-Granted m (b ∷ bs) (taken ∷ left ∷ bs) wanted 0 hp small fit (suc fuel) enough in
    let (m2, freed, broken) = free-unsound m1 taken left bs granted.IsHeap-after refl refl fuel in
    (
      m1,
      m2,
      runs ∙ ap (λ (p : ℕ). done p m1) (omega arith),
      ap (λ (a : ℕ). free (suc (suc fuel)) (a + 32) m1) (sym granted.same_first) ∙ freed,
      broken,
    )
