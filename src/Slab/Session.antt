-- ===== src/Slab/Session.antt =====
-- Calls of the slab allocator one after the other.
use tiny_bios.Prelude.{
  ℕ, suc, ◌+◌, ◌*◌, ◌≤◌, ◌<◌, ◌≡◌, ◌≢◌, inl, inr, refl, ap, ◌∙◌, arith, ==_iff, Bool-cases, ltb,
}
use native.Mathlib.Nat.{mul-le-mul_right, suc-mul}
use tiny_bios.Memory.{Memory}
use tiny_bios.Memory.Words.{Apart}
use tiny_bios.Slab.{
  SlabHeader, header_size, slab_overhead, slab_mem, slab_alloc, slab_free, Allocation,
}
use tiny_bios.Slab.Layout.{slab_overhead_lem}
use tiny_bios.Slab.Objects.{
  IsSlab, Allocated, all_used, first_unused, in_use, slab_alloc-Allocated, slab_free-IsSlab,
  in_use-slab_free, slab_free-other,
}

module _ (slab : ℕ) (h : SlabHeader) (m : Memory) (s : IsSlab slab h m) where
  slab_mem-plain :
      (i : ℕ)
      → i < h.num_entries
      → slab_mem h slab i ≡ i * h.allocation_size + slab_overhead h + slab
  unfolding slab_mem
  slab_mem-plain i below = omega (
    arith,
    s.room,
    s.sized,
    mul-le-mul_right h.allocation_size below,
    suc-mul i h.allocation_size,
  )

  slab_mem-pos : (i : ℕ) → i < h.num_entries → 0 < slab_mem h slab i
  slab_mem-pos i below = omega (arith, slab_mem-plain i below, slab_overhead_lem h s.sized, s.sized)

  -- The ranges of two objects of a slab do not overlap.
  pub objects-Apart :
      (i j : ℕ)
      → i < h.num_entries
      → j < h.num_entries
      → i ≢ j
      → Apart (slab_mem h slab i) h.allocation_size (slab_mem h slab j) h.allocation_size
  objects-Apart i j hi hj differ = elim (Bool-cases (ltb i j)) [
    | inl less ↦ inl (
        ground
          (arith, slab_mem-plain i hi, slab_mem-plain j hj, suc-mul i h.allocation_size, up i j))
    | inr more ↦ inr (
        ground
          (arith, slab_mem-plain i hi, slab_mem-plain j hj, suc-mul j h.allocation_size, up j i))
  ]
    where
      up : (x y : ℕ) → x < y → suc x * h.allocation_size ≤ y * h.allocation_size
      up x y less = mul-le-mul_right h.allocation_size less

  undone :
      (a : Allocation)
      → Allocated slab h m a
      → a.address ≢ 0
      → (j : ℕ) → in_use slab (slab_free slab a.address a.memory) j ≡ in_use slab m j
  undone a (all_used _ null _) some_object j = absurd (some_object null)
  undone a (first_unused i below unused _ at others _ after) some_object j = rw at (
      in_use-slab_free slab h a.memory after i below j
      ∙ ground (arith, ==_iff i j, others j, λ (e : i ≡ j). ap (in_use slab m) e))

  -- Freeing what `slab_alloc` gave puts every object in the state that it had before.
  pub slab_free-slab_alloc :
      (slab_alloc slab m).address ≢ 0
      → (j : ℕ)
      → in_use slab (slab_free slab (slab_alloc slab m).address (slab_alloc slab m).memory) j
        ≡ in_use slab m j
  slab_free-slab_alloc = undone (slab_alloc slab m) (slab_alloc-Allocated slab h m s)

-- The memories that calls lead to from `m`: allocations, and freeing of objects of the slab.
pub data Session (slab : ℕ) (h : SlabHeader) (m : Memory) : Memory → Type 0 where
  start : Session slab h m m
  alloc : (now : Memory) → Session slab h m now → Session slab h m (slab_alloc slab now).memory
  free :
      (now : Memory) (i : ℕ)
      → i < h.num_entries
      → Session slab h m now
      → Session slab h m (slab_free slab (slab_mem h slab i) now)

-- Outside the header and the bitmap.
abbrev pub OutsideBitmap : (slab : ℕ) (h : SlabHeader) (y : ℕ) → Type 0
OutsideBitmap slab h y = Apart (slab + header_size) h.bitmap_bytes y 1

module _ (slab : ℕ) (h : SlabHeader) where
  alloc-kept :
      (m : Memory) (a : Allocation)
      → IsSlab slab h m
      → Allocated slab h m a
      → IsSlab slab h a.memory × ((y : ℕ) → OutsideBitmap slab h y → a.memory y ≡ m y)
  alloc-kept m a s (all_used _ _ same) = rw same (s, λ y _. refl)
  alloc-kept m a s (first_unused i below _ _ _ _ others after) =
      (after, λ y outside. others y (ground (arith, s.mapped)))

  Session-kept :
      (m now : Memory)
      → IsSlab slab h m
      → Session slab h m now
      → IsSlab slab h now × ((y : ℕ) → OutsideBitmap slab h y → now y ≡ m y)
  Session-kept m now s start = (s, λ y _. refl)
  Session-kept m now s (alloc before calls) =
      let (kept, same) = Session-kept m before s calls in
      let (after, step) =
        alloc-kept before (slab_alloc slab before) kept (slab_alloc-Allocated slab h before kept) in
      (after, λ y outside. step y outside ∙ same y outside)
  Session-kept m now s (free before i below calls) =
      let (kept, same) = Session-kept m before s calls in
      (
        slab_free-IsSlab slab h before kept i below,
        λ y outside.
            slab_free-other slab h before kept i below y (ground (arith, kept.mapped))
            ∙ same y outside,
      )

  -- Whatever allocations and freeings of its objects are made on a slab, it stays a slab with the same header.
  pub Session-IsSlab : (m now : Memory) → IsSlab slab h m → Session slab h m now → IsSlab slab h now
  Session-IsSlab m now s calls = (Session-kept m now s calls).0

  -- Whatever allocations and freeings of its objects are made on a slab, no byte outside its bitmap changes.
  pub Session-other :
      (m now : Memory)
      → IsSlab slab h m
      → Session slab h m now
      → (y : ℕ) → OutsideBitmap slab h y
      → now y ≡ m y
  Session-other m now s calls = (Session-kept m now s calls).1
