-- ===== src/Malloc/Exhausted.antt =====
-- What `malloc` does where no block is large enough.
use tiny_bios.Prelude.{
  ℕ, zero, suc, ◌+◌, ◌-◌, ◌^◌, ◌<◌, ◌≡◌, true, false, refl, ap, arith, List, [], ◌∷◌, lt→ltb, none,
}
use tiny_bios.Memory.{Memory}
use tiny_bios.Malloc.{
  heap_first, heap_size, is_free, next, next_hdr_is_valid, hdr_addr_is_valid, find_block,
  get_free_block, aligned_size, out_of_fuel, malloc,
}
use tiny_bios.Malloc.Header.{Fields}
use tiny_bios.Malloc.Blocks.{Block, Layout, IsHeap, fits}
use tiny_bios.Malloc.Walk.{Bounds, next_valid, unfit_block}
use tiny_bios.Malloc.Refine.{heap_Bounds}

abbrev pub NoneFits : ℕ → List Block → Type 0
NoneFits wanted [] = Unit
NoneFits wanted (b ∷ bs) = (fits wanted b ≡ false) × NoneFits wanted bs

module _ (m : Memory) (wanted : ℕ) (null_taken : is_free m 0 ≡ false) (null_next : next m 0 ≡ 0)
    (null_valid : hdr_addr_is_valid m 0 ≡ true) where
  -- The null pointer passes the range check, and so its `next` is followed, which is null.
  null_loops : (fuel : ℕ) → find_block fuel wanted 0 m ≡ none
  unfolding find_block next_hdr_is_valid
  null_loops zero = refl
  null_loops (suc fuel) = rw (null_taken, null_next, null_valid) (null_loops fuel)

  no_fit_loops :
      (limit : ℕ) (k : Bounds m limit wanted) (fuel prev a : ℕ) (b : Block) (bs : List Block)
      → Layout m prev a (b ∷ bs) limit
      → NoneFits wanted (b ∷ bs)
      → find_block fuel wanted a m ≡ none
  unfolding find_block
  no_fit_loops limit k zero prev a b bs l none_fits = refl
  no_fit_loops limit k (suc fuel) prev a b [] l none_fits =
      rw
        (
          unfit_block m limit wanted k prev a b [] l,
          none_fits.0,
          next_valid m limit wanted k prev a b [] l,
          ap (λ (f : Fields). f.next) l.0,
        )
        (null_loops fuel)
  no_fit_loops limit k (suc fuel) prev a b (c ∷ bs) l none_fits =
      rw
        (
          unfit_block m limit wanted k prev a b (c ∷ bs) l,
          none_fits.0,
          next_valid m limit wanted k prev a b (c ∷ bs) l,
          ap (λ (f : Fields). f.next) l.0,
        )
        (no_fit_loops limit k fuel a (a + b.size) c bs l.3 none_fits.1)

-- Where no block is large enough, `malloc` does not return a null pointer: the null `next` of the
-- last block passes the range check, and while the null header's own `next` is null the search goes
-- round it for ever, on any fuel.
pub malloc_never_returns :
    (m : Memory) (b : Block) (bs : List Block) (wanted fuel : ℕ)
    → IsHeap m (b ∷ bs)
    → wanted + 64 < 2 ^ 64
    → next m 0 ≡ 0
    → NoneFits (aligned_size wanted) (b ∷ bs)
    → malloc fuel wanted m ≡ out_of_fuel
unfolding malloc get_free_block
malloc_never_returns m b bs wanted fuel hp small null_next none_fits = rw (
  no_fit_loops m (aligned_size wanted) hp.null_taken null_next valid
      (heap_first m + heap_size m - 32) k fuel 0 (heap_first m) b bs hp.layout none_fits,
  malloc,
)
  where
    k : Bounds m (heap_first m + heap_size m - 32) (aligned_size wanted)
    k = heap_Bounds m (b ∷ bs) wanted hp small

    valid : hdr_addr_is_valid m 0 ≡ true
    valid = unfold hdr_addr_is_valid in lt→ltb _ _ (omega (arith, hp.top, hp.room, hp.bottom))
