-- ===== src/Malloc/Free.antt =====
-- What `free` does to a block whose neighbours are in use: it refines a step on the list of blocks.
use tiny_bios.Prelude.{
  ℕ, suc, ◌+◌, ◌-◌, ◌≤◌, ◌<◌, ◌≡◌, ◌≢◌, ◌∙◌, refl, ap, arith, Bool, true, false, ◌&&◌, List, [],
  ◌∷◌, Bool-cases, inl, inr,
}
use tiny_bios.Memory.{Memory}
use tiny_bios.Memory.Words.{store8-other, load64_ext}
use tiny_bios.Malloc.{
  heap, heap_first, heap_size, previous, next, is_free, set_free, header_for_ptr, next_hdr_is_valid,
  previous_hdr_is_valid, done, fuse_forward, fuse_backward, fuse_walkthrough, delete_block, free,
}
use tiny_bios.Malloc.Header.{Fields, fields, fields-Apart, set_free-same, set_free-SameBut}
use tiny_bios.Malloc.Blocks.{
  Block, block, next_addr, Layout, front_free, NoTwoFree, IsHeap, Layout-le, Layout-ext,
}

-- A block in use, at that offset, is freed, with no free block on either side; `prev` says whether
-- the block in front of the list is free.
pub data Freed : Bool → List Block → ℕ → List Block → Type 0 where
  here :
      {prev : Bool} (b : Block) (bs bs' : List Block)
      → prev ≡ false
      → b.is_free ≡ false
      → front_free bs ≡ false
      → bs' ≡ block b.size true ∷ bs
      → Freed prev (b ∷ bs) 0 bs'
  there :
      {prev : Bool} (b : Block) {bs bs' : List Block} {off : ℕ} (off' : ℕ)
      → off' ≡ b.size + off
      → Freed b.is_free bs off bs'
      → Freed prev (b ∷ bs) off' (b ∷ bs')

-- No two free blocks come to stand side by side.
NoTwoFree-Freed :
    {prev : Bool} {bs bs' : List Block} {off : ℕ}
    → Freed prev bs off bs'
    → NoTwoFree bs
    → (prev && front_free bs) ≡ false
    → NoTwoFree bs' × ((prev && front_free bs') ≡ false)
NoTwoFree-Freed (here b bs bs' p used behind e) apart front =
    rw (e, p, behind) ((refl, apart.1), refl)
NoTwoFree-Freed (there b off' e f) apart front =
    let (inner, edge) = NoTwoFree-Freed f apart.1 apart.0 in ((edge, inner), front)

next_addr-Freed :
    {prev : Bool} {bs bs' : List Block} {off : ℕ} (c : ℕ)
    → Freed prev bs off bs'
    → next_addr c bs' ≡ next_addr c bs
next_addr-Freed c (here b bs bs' p used behind e) = rw e refl
next_addr-Freed c (there b off' e f) = refl

-- What is found at the block to be freed, and the layout with its flag set.
record Found (m : Memory) (prev a limit : ℕ) (bs' : List Block) (h : ℕ) : Type 0 where
  used : is_free m h ≡ false
  next_taken : is_free m (next m h) ≡ false
  next_other : next m h ≢ h
  previous_taken : is_free m (previous m h) ≡ false
  previous_other : previous m h ≢ h
  behind : a ≤ h
  inside : h + 32 ≤ limit
  layout : Layout (set_free h true m) prev a bs' limit

next_is_taken :
    (m : Memory) (a c : ℕ) (bs : List Block) (limit : ℕ)
    → is_free m 0 ≡ false
    → front_free bs ≡ false
    → Layout m a c bs limit
    → is_free m (next_addr c bs) ≡ false
next_is_taken m a c [] limit null front l = null
next_is_taken m a c (b ∷ bs) limit null front l = ap (λ (f : Fields). f.is_free) l.0 ∙ front

next_is_other : (a c : ℕ) (bs : List Block) → 0 < a → a < c → next_addr c bs ≢ a
next_is_other a c [] pos lt e = omega arith
next_is_other a c (b ∷ bs) pos lt e = omega arith

module _ (m : Memory) (limit : ℕ) (null : is_free m 0 ≡ false) where
  found_here :
      (prev a : ℕ) (b : Block) (bs : List Block)
      → prev < a
      → is_free m prev ≡ false
      → b.is_free ≡ false
      → front_free bs ≡ false
      → Layout m prev a (b ∷ bs) limit
      → Found m prev a limit (block b.size true ∷ bs) a
  found_here prev a b bs lt front used behind l =
      let next_is = ap (λ (f : Fields). f.next) l.0 in
      let previous_is = ap (λ (f : Fields). f.previous) l.0 in
      record {
        used = ap (λ (f : Fields). f.is_free) l.0 ∙ used;
        next_taken = rw next_is (next_is_taken m a (a + b.size) bs limit null behind l.3);
        next_other =
            rw next_is (next_is_other a (a + b.size) bs (omega arith) (omega (arith, l.1)));
        previous_taken = rw previous_is front;
        previous_other = rw previous_is (λ e. omega arith);
        behind = omega arith;
        inside = omega (arith, l.1, Layout-le m a (a + b.size) bs limit l.3);
        layout = (
          set_free-same m a true ∙ ap (λ (f : Fields). record f { is_free = true }) l.0,
          l.1,
          l.2,
          Layout-ext m (set_free a true m) a (a + b.size) bs limit
              (λ x p. set_free-SameBut m a true x (omega (arith, l.1))) l.3,
        );
      }

  found_there :
      (prev a h : ℕ) (b : Block) (bs bs' : List Block)
      → next_addr (a + b.size) bs' ≡ next_addr (a + b.size) bs
      → Layout m prev a (b ∷ bs) limit
      → Found m a (a + b.size) limit bs' h
      → Found m prev a limit (b ∷ bs') h
  found_there prev a h b bs bs' same l w = record {
    used = w.used;
    next_taken = w.next_taken;
    next_other = w.next_other;
    previous_taken = w.previous_taken;
    previous_other = w.previous_other;
    behind = omega (arith, w.behind);
    inside = w.inside;
    layout = (
      fields-Apart h 32 a (set_free-SameBut m h true) (omega (arith, l.1, w.behind)) ∙ rw same l.0,
      l.1,
      l.2,
      w.layout,
    );
  }

  Freed-Found :
      (flag : Bool) (prev a h : ℕ) (bs bs' : List Block) (off : ℕ)
      → Freed flag bs off bs'
      → h ≡ a + off
      → prev < a
      → is_free m prev ≡ flag
      → Layout m prev a bs limit
      → Found m prev a limit bs' h
  Freed-Found flag prev a h _ _ _ (here b bs bs' p used behind e) at lt front l =
      let start : h ≡ a = omega arith in
      rw (e, start) (found_here prev a b bs lt (front ∙ p) used behind l)
  Freed-Found flag prev a h _ _ _ (there b {bs} {bs'} {off} off' e f) at lt front l =
      found_there prev a h b bs bs' (next_addr-Freed (a + b.size) f) l (
        Freed-Found b.is_free a (a + b.size) h bs bs' off f (omega arith) (omega (arith, l.1))
          (ap (λ (f : Fields). f.is_free) l.0) l.3)

-- Nothing is merged where neither neighbour is free.
module _ (m : Memory) (h : ℕ) (next_taken : is_free m (next m h) ≡ false)
    (previous_taken : is_free m (previous m h) ≡ false) where
  fuse_walkthrough-stops : (fuel : ℕ) → fuse_walkthrough (suc fuel) h m ≡ done tt m
  unfolding fuse_walkthrough fuse_forward fuse_backward
  fuse_walkthrough-stops fuel = elim (Bool-cases (next_hdr_is_valid m h)) [
    | inl ok ↦ rw (ok, next_taken) backward
    | inr out ↦ rw out backward
  ]
    where
      backward : fuse_backward (suc fuel) h m ≡ done tt m
      backward = elim (Bool-cases (previous_hdr_is_valid m h)) [
        | inl ok ↦ rw (ok, previous_taken) refl
        | inr out ↦ rw out refl
      ]

-- What `free` leaves: a sound heap with that block free, and every byte but the block's flag as it was.
pub record Released (m : Memory) (bs' : List Block) (h : ℕ) (m' : Memory) : Type 0 where
  pub IsHeap-after : IsHeap m' bs'
  pub same : (x : ℕ) → x ≢ h + 24 → m' x ≡ m x

module _ (m : Memory) (bs bs' : List Block) (off : ℕ) (hp : IsHeap m bs)
    (f : Freed false bs off bs') where
  abbrev h : ℕ
  h = heap_first m + off

  abbrev after : Memory
  after = set_free h true m

  found : Found m 0 (heap_first m) (heap_first m + heap_size m - 32) bs' h
  found =
      Freed-Found m _ hp.null_taken false 0 (heap_first m) h bs bs' off f refl
        (omega (arith, hp.bottom)) hp.null_taken hp.layout

  same : (x : ℕ) → x ≢ h + 24 → after x ≡ m x
  unfolding set_free
  same x ne = store8-other m (h + 24) _ x ne

  fields_kept : (g : ℕ) → g ≢ h → is_free m g ≡ false → is_free after g ≡ false
  unfolding is_free
  fields_kept g ne taken = rw (same (g + 24) (λ e. ne (omega arith))) taken

  first_after : heap_first after ≡ heap_first m
  unfolding heap_first
  first_after = load64_ext m after (heap + 8) (λ x p q. same x (λ e. omega (arith, hp.bottom)))

  size_after : heap_size after ≡ heap_size m
  unfolding heap_size
  size_after = load64_ext m after heap (λ x p q. same x (λ e. omega (arith, hp.bottom)))

  IsHeap-after : IsHeap after bs'
  IsHeap-after = record {
    bottom = rw first_after hp.bottom;
    room = rw size_after hp.room;
    top = rw (first_after, size_after) hp.top;
    layout = rw (first_after, size_after) found.layout;
    apart = (NoTwoFree-Freed f hp.apart refl).0;
    null_taken = fields_kept 0 (λ e. omega (arith, hp.bottom)) hp.null_taken;
  }

  flagged : fields after h ≡ record (fields m h) { is_free = true }
  flagged = set_free-same m h true

  header_lem : header_for_ptr (h + 32) ≡ h
  unfolding header_for_ptr
  header_lem = omega (arith, found.inside, hp.top)

  next_taken : is_free after (next after h) ≡ false
  next_taken =
      rw (ap (λ (g : Fields). g.next) flagged)
        (fields_kept (next m h) found.next_other found.next_taken)

  previous_taken : is_free after (previous after h) ≡ false
  previous_taken =
      rw (ap (λ (g : Fields). g.previous) flagged)
        (fields_kept (previous m h) found.previous_other found.previous_taken)

  -- On a sound heap, freeing the pointer of a block in use whose neighbours are not free ends with one
  -- round for each direction of the merge, and leaves a sound heap with that block free and the others
  -- as they were; no byte changes but the block's flag.
  pub free-Released :
      (fuel : ℕ) → (m' : Memory) × (free (suc fuel) (h + 32) m ≡ done tt m') × Released m bs' h m'
  unfolding free delete_block
  free-Released fuel = (
    after,
    rw (header_lem, found.used) (fuse_walkthrough-stops after h next_taken previous_taken fuel),
    record { IsHeap-after = IsHeap-after; same = same },
  )
