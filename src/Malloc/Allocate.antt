-- ===== src/Malloc/Allocate.antt =====
-- `allocate_block` at the block that the search has found.
use tiny_bios.Prelude.{
  ℕ, ◌+◌, ◌-◌, ◌%◌, ◌^◌, ◌≤◌, ◌<◌, ◌≡◌, ◌⊎◌, inl, inr, true, false, refl, ap, ◌∙◌, arith, List, [],
  ◌∷◌, ltb, lt→ltb, Bool-cases,
}
use tiny_bios.Memory.{Memory}
use tiny_bios.Memory.Words.{Apart, load64_ext}
use tiny_bios.Malloc.{
  heap, heap_first, heap_size, next, size, is_free, set_free, hdr_addr_is_valid, next_hdr_is_valid,
  space_for_new_blk, insert_new_block, allocate_block,
}
use tiny_bios.Malloc.Header.{Fields, fields, fields-Apart, set_free-same, set_free-SameBut}
use tiny_bios.Malloc.Insert.{Splits, Inserted, insert_new_block-Inserted}
use tiny_bios.Malloc.Blocks.{
  Block, block, next_addr, Layout, front_free, take_block, Layout-le, Layout-ext, Layout-relink,
}

-- A block at `h` that is free and larger than wanted by a header at least.
pub record Chosen (m : Memory) (prev h : ℕ) (b : Block) (bs : List Block) (limit wanted : ℕ)
    : Type 0 where
  pub layout : Layout m prev h (b ∷ bs) limit
  pub larger : wanted + 32 ≤ b.size
  pub wanted_min : 32 ≤ wanted
  pub wanted_mod : wanted % 32 ≡ 0
  pub alone : front_free bs ≡ false
  pub above : heap_first m ≤ h
  pub bottom : heap + 16 ≤ heap_first m
  pub limit_is : limit + 32 ≡ heap_first m + heap_size m
  pub top : limit + 32 < 2 ^ 64
  pub null_taken : is_free m 0 ≡ false

next_addr-cases : (a : ℕ) (bs : List Block) → (next_addr a bs ≡ 0) ⊎ (next_addr a bs ≡ a)
next_addr-cases a [] = inl refl
next_addr-cases a (b ∷ bs) = inr refl

pub next_addr-lt :
    (m : Memory) (prev a : ℕ) (bs : List Block) (limit : ℕ)
    → Layout m prev a bs limit
    → 0 < a
    → next_addr a bs < limit
next_addr-lt m prev a [] limit l pos = omega arith
next_addr-lt m prev a (b ∷ bs) limit l pos = omega (arith, Layout-le m a (a + b.size) bs limit l.3)

next_taken :
    (m : Memory) (prev a : ℕ) (bs : List Block) (limit : ℕ)
    → Layout m prev a bs limit
    → front_free bs ≡ false
    → is_free m 0 ≡ false
    → is_free m (next_addr a bs) ≡ false
next_taken m prev a [] limit l alone null = null
next_taken m prev a (b ∷ bs) limit l alone null = ap (λ (f : Fields). f.is_free) l.0 ∙ alone

-- What `allocate_block` leaves.
pub record Taken (m : Memory) (prev h : ℕ) (b : Block) (bs : List Block) (limit wanted : ℕ)
    (m' : Memory) : Type 0 where
  pub layout : Layout m' prev h (take_block wanted b bs) limit
  pub same_below : (x : ℕ) → 8 ≤ x → x < h → m' x ≡ m x
  pub same_behind : (x : ℕ) → h + b.size + 32 ≤ x → m' x ≡ m x

module _ (m : Memory) (prev h : ℕ) (b : Block) (bs : List Block) (limit wanted : ℕ)
    (c : Chosen m prev h b bs limit wanted) where
  abbrev marked : Memory
  marked = set_free h false m

  abbrev behind : ℕ
  behind = h + b.size

  marked-fields :
      fields marked h
      ≡ record { previous = prev; next = next_addr behind bs; size = b.size; is_free = false }
  marked-fields =
      set_free-same m h false ∙ ap (λ (f : Fields). record f { is_free = false }) c.layout.0

  marked_same : (x : ℕ) → Apart h 32 x 1 → marked x ≡ m x
  marked_same = set_free-SameBut m h false

  tail : Layout marked h behind bs limit
  tail =
      Layout-ext m marked h behind bs limit (λ x p. marked_same x (omega (arith, c.layout.1)))
        c.layout.3

  null_marked : is_free marked 0 ≡ false
  null_marked =
      ap (λ (f : Fields). f.is_free)
        (fields-Apart h 32 0 (set_free-SameBut m h false) (omega (arith, c.above, c.bottom)))
      ∙ c.null_taken

  first_marked : heap_first marked ≡ heap_first m
  unfolding heap_first
  first_marked =
      load64_ext m marked (heap + 8) (λ x p q. marked_same x (omega (arith, c.above, c.bottom)))

  size_marked : heap_size marked ≡ heap_size m
  unfolding heap_size
  size_marked = load64_ext m marked heap (λ x p q. marked_same x (omega (arith, c.above, c.bottom)))

  behind-le : behind ≤ limit
  behind-le = Layout-le m h behind bs limit c.layout.3

  next_valid : next_hdr_is_valid marked h ≡ true
  unfolding next_hdr_is_valid hdr_addr_is_valid
  next_valid = lt→ltb _ _ (
      omega (
        arith,
        ap (λ (f : Fields). f.next) marked-fields,
        first_marked,
        size_marked,
        next_addr-lt marked h behind bs limit tail (omega (arith, c.layout.1)),
        c.limit_is,
        c.top,
      ))

  space_iff : space_for_new_blk marked h wanted ≡ ltb (wanted + 96) b.size
  unfolding space_for_new_blk
  space_iff = ground (arith, marked-fields, c.larger, behind-le, c.top)

  next_is : next marked h ≡ next_addr behind bs
  next_is = ap (λ (f : Fields). f.next) marked-fields

  next_is_cases : (next marked h ≡ 0) ⊎ (next marked h ≡ behind)
  next_is_cases = rw next_is (next_addr-cases behind bs)

  size_is : size marked h ≡ b.size
  size_is = ap (λ (f : Fields). f.size) marked-fields

  marked-Splits : Splits marked h wanted
  marked-Splits = record {
    wanted_min = c.wanted_min;
    fits = omega (arith, c.larger, size_is);
    top = omega (arith, behind-le, c.top, size_is);
    next_top = omega (arith, next_is_cases, behind-le, c.top);
    clear_of_next = omega (arith, next_is_cases, c.layout.1, c.above, c.bottom);
    new_clear_of_next = omega (arith, next_is_cases, c.larger, c.above, c.bottom);
    next_taken = rw next_is (next_taken marked h behind bs limit tail c.alone null_marked);
  }

  abbrev split : Memory
  split = insert_new_block h wanted marked

  inserted : Inserted marked h wanted split
  inserted = insert_new_block-Inserted marked h wanted marked-Splits

  split_same_behind : (x : ℕ) → behind + 32 ≤ x → split x ≡ marked x
  split_same_behind x p =
      inserted.same x (omega (arith, c.layout.1)) (omega (arith, c.larger))
        (omega (arith, next_is_cases))

  split_tail : Layout split (h + wanted) behind bs limit
  split_tail =
      Layout-relink marked split h (h + wanted) behind bs limit (rw next_is at inserted.behind)
        split_same_behind tail

  new_end : h + wanted + (b.size - wanted) ≡ behind
  new_end = omega (arith, c.larger)

  split-Layout : Layout split prev h (block wanted false ∷ block (b.size - wanted) true ∷ bs) limit
  split-Layout = (
    inserted.front
        ∙ ap (λ (f : Fields). record f { size = wanted; next = h + wanted }) marked-fields,
    c.wanted_min,
    c.wanted_mod,
    (
      inserted.new ∙ rw (new_end, next_is, size_is),
      omega (arith, c.larger),
      omega (arith, c.larger, c.wanted_mod, c.layout.2),
      rw new_end split_tail,
    ),
  )

  split-Taken : ltb (wanted + 96) b.size ≡ true → Taken m prev h b bs limit wanted split
  split-Taken large = record {
    layout = rw large split-Layout;
    same_below = λ x p q.
        inserted.same x (omega arith) (omega arith) (omega (arith, next_is_cases))
        ∙ marked_same x (omega arith);
    same_behind = λ x p. split_same_behind x p ∙ marked_same x (omega (arith, c.layout.1));
  }

  whole-Taken : ltb (wanted + 96) b.size ≡ false → Taken m prev h b bs limit wanted marked
  whole-Taken small = record {
    layout = rw small (marked-fields, c.layout.1, c.layout.2, tail);
    same_below = λ x p q. marked_same x (omega arith);
    same_behind = λ x p. marked_same x (omega (arith, c.layout.1));
  }

  pub allocate_block-Taken : Taken m prev h b bs limit wanted (allocate_block h wanted m)
  unfolding allocate_block
  allocate_block-Taken = elim (Bool-cases (ltb (wanted + 96) b.size)) [
    | inl large ↦ rw (next_valid, space_iff, large) (split-Taken large)
    | inr small ↦ rw (next_valid, space_iff, small) (whole-Taken small)
  ]
