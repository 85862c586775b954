-- ===== src/Malloc/Fuse.antt =====
-- What `fuse_blocks` does to a block and the one behind it.
use tiny_bios.Prelude.{
  ℕ, ◌+◌, ◌^◌, ◌≤◌, ◌<◌, ◌≡◌, ◌∙◌, false, refl, ap, arith, if◌then◌else◌, ltb, u64, Bool-cases, inl,
  inr,
}
use tiny_bios.Memory.{Memory, memset}
use tiny_bios.Memory.Words.{Apart, load64-zero}
use tiny_bios.Memory.Loops.{memset_lem}
use tiny_bios.Malloc.{
  previous, next, size, is_free, set_previous, set_next, set_size, next_hdr_is_valid, header_size,
  fuse_blocks,
}
use tiny_bios.Malloc.Header.{
  SameBut, Fields, fields, fields-Apart, set_next-same, set_previous-same, set_size-SameBut,
  set_next-SameBut, set_previous-SameBut,
}

module _ (m : Memory) (h : ℕ) where
  abbrev cleared : Memory
  cleared = memset h 0 header_size m

  cleared_byte : (x : ℕ) → h ≤ x → x < h + 32 → cleared x ≡ 0
  cleared_byte x p q = ground (arith, memset_lem h 0 header_size m x)

  cleared-fields : fields cleared h ≡ record { previous = 0; next = 0; size = 0; is_free = false }
  unfolding previous next size is_free
  cleared-fields = ground (
    arith,
    load64-zero cleared h (λ x p q. cleared_byte x p (omega arith)),
    load64-zero cleared (h + 8) (λ x p q. cleared_byte x (omega arith) (omega arith)),
    load64-zero cleared (h + 16) (λ x p q. cleared_byte x (omega arith) (omega arith)),
    cleared_byte (h + 24),
  )

  cleared_same : SameBut h 32 m cleared
  cleared_same x apart = ground (arith, memset_lem h 0 header_size m x)

module _ (m : Memory) (h : ℕ) (clear : h + 32 ≤ next m h) (top : next m h < 2 ^ 64) where
  abbrev n : ℕ
  n = next m h

  abbrev fuse1 : Memory
  fuse1 = set_size n (u64 (size m n + size m h)) m

  fuse1_next : next fuse1 h ≡ n
  fuse1_next =
      ap (λ (f : Fields). f.next) (fields-Apart n 32 h (set_size-SameBut m n _) (omega arith))

  abbrev fuse2 : Memory
  fuse2 = set_next n n fuse1

  fuse2_next : next fuse2 n ≡ n
  fuse2_next = ap (λ (f : Fields). f.next) (set_next-same fuse1 n n top)

  abbrev fuse3 : Memory
  fuse3 = if next_hdr_is_valid fuse2 n then set_previous n n fuse2 else fuse2

  fuse3_next : next fuse3 n ≡ n
  fuse3_next = elim (Bool-cases (next_hdr_is_valid fuse2 n)) [
    | inl ok ↦ rw ok (ap (λ (f : Fields). f.next) (set_previous-same fuse2 n n top) ∙ fuse2_next)
    | inr out ↦ rw out fuse2_next
  ]

  fuse_stages : fuse_blocks h (next m h) m ≡ cleared fuse3 h
  unfolding fuse_blocks
  fuse_stages =
      let order : ltb (next m h) h ≡ false = ground arith in rw (order, fuse1_next, fuse2_next)

  -- No byte outside the two headers changes.
  pub fuse_blocks-other :
      (x : ℕ) → Apart h 32 x 1 → Apart n 32 x 1 → fuse_blocks h (next m h) m x ≡ m x
  fuse_blocks-other x below above = rw fuse_stages (
      cleared_same fuse3 h x below
      ∙ fuse3_other
      ∙ set_next-SameBut fuse1 n n x above
      ∙ set_size-SameBut m n _ x above)
    where
      fuse3_other : fuse3 x ≡ fuse2 x
      fuse3_other = elim (Bool-cases (next_hdr_is_valid fuse2 n)) [
        | inl ok ↦ rw ok (set_previous-SameBut fuse2 n n x (omega arith))
        | inr out ↦ rw out refl
      ]

  -- Merging a block with the one behind it keeps the higher of the two: whatever the blocks hold,
  -- the lower header is erased, although it was the one to be kept, and the higher one is linked to
  -- itself, so that the blocks behind it are lost.
  pub fuse_blocks-erases :
      (fields (fuse_blocks h (next m h) m) h
        ≡ record { previous = 0; next = 0; size = 0; is_free = false })
      × (next (fuse_blocks h (next m h) m) (next m h) ≡ next m h)
  fuse_blocks-erases = rw fuse_stages (
    cleared-fields fuse3 h,
    ap (λ (f : Fields). f.next) (fields-Apart h 32 n (cleared_same fuse3 h) (omega arith))
        ∙ fuse3_next,
  )
