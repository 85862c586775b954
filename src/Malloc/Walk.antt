-- ===== src/Malloc/Walk.antt =====
-- The walk along the blocks to the first fit, and the allocation there.
use tiny_bios.Prelude.{
  ℕ, zero, suc, ◌+◌, ◌-◌, ◌%◌, ◌^◌, ◌≤◌, ◌<◌, ◌≡◌, inl, inr, true, false, not, ◌||◌, refl, ap, ◌∙◌,
  arith, List, [], ◌∷◌, ltb, lt→ltb, Bool-cases, length, some,
}
use tiny_bios.Memory.{Memory}
use tiny_bios.Malloc.{
  heap, heap_first, heap_size, next, size, is_free, hdr_addr_is_valid, next_hdr_is_valid,
  find_block, allocate_block,
}
use tiny_bios.Malloc.Header.{Fields, fields_ext}
use native.Mathlib.Nat.{add-zero}
use tiny_bios.Malloc.Allocate.{next_addr-lt, Taken, allocate_block-Taken}
use tiny_bios.Malloc.Blocks.{
  Block, next_addr, Layout, front_free, NoTwoFree, InUse, fits, take_block, FirstFit, here, there,
  Layout-le,
}

-- The facts about the whole heap that a walk along the blocks carries.
pub record Bounds (m : Memory) (limit wanted : ℕ) : Type 0 where
  pub wanted_min : 32 ≤ wanted
  pub wanted_mod : wanted % 32 ≡ 0
  pub bottom : heap + 16 ≤ heap_first m
  pub limit_is : limit + 32 ≡ heap_first m + heap_size m
  pub top : limit + 32 < 2 ^ 64
  pub null_taken : is_free m 0 ≡ false

pub InUse-le :
    (m : Memory) (prev a : ℕ) (bs : List Block) (limit x : ℕ)
    → Layout m prev a bs limit
    → InUse a bs x
    → a + 32 ≤ x
InUse-le m prev a [] limit x l h = absurd h
InUse-le m prev a (b ∷ bs) limit x l (inl h) = h.1
InUse-le m prev a (b ∷ bs) limit x l (inr h) =
    omega (arith, InUse-le m a (a + b.size) bs limit x l.3 h)

next_addr-FirstFit :
    {wanted off : ℕ} {bs bs' : List Block} (c : ℕ)
    → FirstFit wanted bs off bs'
    → next_addr c bs' ≡ next_addr c bs
next_addr-FirstFit {wanted} c (here b bs bs' free large e) = rw e (ground arith)
next_addr-FirstFit c (there b off' unfit e f) = refl

next_addr_of_FirstFit :
    {wanted off : ℕ} {bs bs' : List Block} (c : ℕ) → FirstFit wanted bs off bs' → next_addr c bs ≡ c
next_addr_of_FirstFit c (here b bs bs' free large e) = refl
next_addr_of_FirstFit c (there b off' unfit e f) = refl

front_free-FirstFit :
    {wanted off : ℕ} {bs bs' : List Block}
    → FirstFit wanted bs off bs'
    → front_free bs ≡ false
    → front_free bs' ≡ false
front_free-FirstFit (here b bs bs' free large e) taken = cc
front_free-FirstFit (there b off' unfit e f) taken = taken

NoTwoFree-take_block :
    (wanted : ℕ) (b : Block) (bs : List Block)
    → front_free bs ≡ false
    → NoTwoFree bs
    → NoTwoFree (take_block wanted b bs)
NoTwoFree-take_block wanted b bs alone apart = elim (Bool-cases (ltb (wanted + 96) b.size)) [
  | inl large ↦ rw large (refl, (alone, apart))
  | inr small ↦ rw small (refl, apart)
]

-- What the allocation at offset `off` leaves.
pub record Allocated (m : Memory) (prev a : ℕ) (bs bs' : List Block) (off limit wanted : ℕ)
    (m' : Memory) : Type 0 where
  pub layout : Layout m' prev a bs' limit
  pub apart : NoTwoFree bs'
  pub same_below : (x : ℕ) → 8 ≤ x → x < a → m' x ≡ m x
  -- No payload in use changes, and each stays in use.
  pub same_in_use : (x : ℕ) → InUse a bs x → (m' x ≡ m x) × InUse a bs' x
  -- What is granted is in use now, and was not before.
  pub granted : (x : ℕ) → a + off + 32 ≤ x → x < a + off + wanted → InUse a bs' x × ¬ InUse a bs x
  pub inside : a + off + 32 ≤ limit

InUse-take_block :
    (a wanted : ℕ) (b : Block) (bs : List Block) (x : ℕ)
    → wanted + 32 ≤ b.size
    → a + 32 ≤ x
    → x < a + wanted
    → InUse a (take_block wanted b bs) x
InUse-take_block a wanted b bs x large low high = elim (Bool-cases (ltb (wanted + 96) b.size)) [
  | inl split ↦ rw split (inl (refl, low, high))
  | inr whole ↦ rw whole (inl (refl, low, omega arith))
]

InUse_behind :
    (a wanted : ℕ) (b : Block) (bs : List Block) (x : ℕ)
    → wanted + 32 ≤ b.size
    → InUse (a + b.size) bs x
    → InUse a (take_block wanted b bs) x
InUse_behind a wanted b bs x large h = elim (Bool-cases (ltb (wanted + 96) b.size)) [
  | inl split ↦
      let e : a + wanted + (b.size - wanted) ≡ a + b.size = omega arith in
      rw split (inr (inr (rw e h)))
  | inr whole ↦ rw whole (inr h)
]

module _ (m : Memory) (limit wanted : ℕ) (k : Bounds m limit wanted) where
  here-Allocated :
      (prev a : ℕ) (b : Block) (bs : List Block)
      → b.is_free ≡ true
      → wanted + 32 ≤ b.size
      → Layout m prev a (b ∷ bs) limit
      → NoTwoFree (b ∷ bs)
      → heap_first m ≤ a
      → Allocated m prev a
          (b ∷ bs)
          (take_block wanted b bs)
          0
          limit
          wanted
          (allocate_block a wanted m)
  here-Allocated prev a b bs free large l apart above =
      let alone : front_free bs ≡ false = ground arith in
      let t : Taken m prev a b bs limit wanted (allocate_block a wanted m) =
        allocate_block-Taken m prev a b bs limit wanted (record {
          layout = l;
          larger = large;
          wanted_min = k.wanted_min;
          wanted_mod = k.wanted_mod;
          alone = alone;
          above = above;
          bottom = k.bottom;
          limit_is = k.limit_is;
          top = k.top;
          null_taken = k.null_taken;
        }) in
      record {
        layout = t.layout;
        apart = NoTwoFree-take_block wanted b bs alone apart.1;
        same_below = t.same_below;
        same_in_use = λ x. elim [
          | inl h ↦ cc (free, h.0)
          | inr h ↦ (
            t.same_behind x (InUse-le m a (a + b.size) bs limit x l.3 h),
            InUse_behind a wanted b bs x large h,
          )
        ];
        granted = λ x low high. (
          InUse-take_block a wanted b bs x large (omega arith) (omega arith),
          elim [
            | inl h ↦ cc (free, h.0)
            | inr h ↦ omega (arith, InUse-le m a (a + b.size) bs limit x l.3 h)
          ],
        );
        inside = omega (arith, Layout-le m a (a + b.size) bs limit l.3);
      }

  there-Allocated :
      (prev a : ℕ) (b : Block) (bs bs' : List Block) (off : ℕ) (m' : Memory)
      → 8 ≤ a
      → Layout m prev a (b ∷ bs) limit
      → NoTwoFree (b ∷ bs)
      → FirstFit wanted bs off bs'
      → Allocated m a (a + b.size) bs bs' off limit wanted m'
      → Allocated m prev a (b ∷ bs) (b ∷ bs') (b.size + off) limit wanted m'
  there-Allocated prev a b bs bs' off m' low l apart f r = record {
    layout = (
      fields_ext m m' a (λ x p q. r.same_below x (omega arith) (omega (arith, l.1)))
          ∙ l.0
          ∙ rw (next_addr-FirstFit (a + b.size) f),
      l.1,
      l.2,
      r.layout,
    );
    apart = (ground (arith, front_free-FirstFit f), r.apart);
    same_below = λ x p q. r.same_below x p (omega arith);
    same_in_use = λ x. elim [
      | inl h ↦ (r.same_below x (omega arith) (omega (arith, h.2)), inl h)
      | inr h ↦ ((r.same_in_use x h).0, inr (r.same_in_use x h).1)
    ];
    granted = λ x p q.
        let g = r.granted x (omega arith) (omega arith) in
        (inr g.0, elim [ inl h ↦ omega (arith, h.2) | inr h ↦ g.1 h ]);
    inside = omega (arith, r.inside);
  }

  -- The walk to the first fit, and the allocation there.
  pub walk-Allocated :
      (prev a : ℕ) (bs bs' : List Block) (off : ℕ)
      → FirstFit wanted bs off bs'
      → Layout m prev a bs limit
      → NoTwoFree bs
      → heap_first m ≤ a
      → Allocated m prev a bs bs' off limit wanted (allocate_block (a + off) wanted m)
  walk-Allocated prev a bs bs' off (here b rest bs'' free large e) l apart above =
      rw (e, add-zero) (here-Allocated prev a b rest free large l apart above)
  walk-Allocated prev a bs bs' off (there b {bs = rest} {bs' = rest'} {off = o} off' unfit e f) l
        apart above =
      let assoc : a + (b.size + o) ≡ a + b.size + o = omega arith in
      rw (e, assoc)
        (there-Allocated prev a b rest rest' o _ (omega (arith, k.bottom)) l apart f
          (walk-Allocated a (a + b.size) rest rest' o f l.3 apart.1 (omega arith)))

  pub next_valid :
      (prev a : ℕ) (b : Block) (bs : List Block)
      → Layout m prev a (b ∷ bs) limit
      → next_hdr_is_valid m a ≡ true
  unfolding next_hdr_is_valid hdr_addr_is_valid
  next_valid prev a b bs l = lt→ltb _ _ (
      omega (
        arith,
        ap (λ (f : Fields). f.next) l.0,
        next_addr-lt m a (a + b.size) bs limit l.3 (omega (arith, l.1)),
        k.limit_is,
        k.top,
      ))

  pub unfit_block :
      (prev a : ℕ) (b : Block) (bs : List Block)
      → Layout m prev a (b ∷ bs) limit
      → (not (is_free m a) || ltb (size m a) wanted) ≡ not (fits wanted b)
  unfit_block prev a b bs l =
      ground (arith, ap (λ (f : Fields). f.is_free) l.0, ap (λ (f : Fields). f.size) l.0)

  -- The search ends at the first fit, on as much fuel as there are blocks.
  pub find_block-FirstFit :
      (fuel prev a : ℕ) (bs bs' : List Block) (off : ℕ)
      → FirstFit wanted bs off bs'
      → Layout m prev a bs limit
      → length bs ≤ fuel
      → find_block fuel wanted a m ≡ some (a + off)
  unfolding find_block
  find_block-FirstFit zero prev a bs bs' off (here b rest bs'' free large e) l enough =
      absurd (omega arith)
  find_block-FirstFit zero prev a bs bs' off (there b off' unfit e f) l enough =
      absurd (omega arith)
  find_block-FirstFit (suc fuel) prev a bs bs' off (here b rest bs'' free large e) l enough =
      let fit : fits wanted b ≡ true = ground arith in
      rw (unfit_block prev a b rest l, fit, add-zero)
  find_block-FirstFit (suc fuel) prev a bs bs' off
        (there b {bs = rest} {bs' = rest'} {off = o} off' unfit e f) l enough =
      let assoc : a + (b.size + o) ≡ a + b.size + o = omega arith in
      let link : next m a ≡ a + b.size =
        ap (λ (r : Fields). r.next) l.0 ∙ next_addr_of_FirstFit (a + b.size) f in
      rw (unfit_block prev a b rest l, unfit, next_valid prev a b rest l, link, e, assoc)
        (find_block-FirstFit fuel a (a + b.size) rest rest' o f l.3 (omega arith))
