-- ===== src/Malloc/Insert.antt =====
-- `insert_new_block` where the block behind is in use, field by field.
use tiny_bios.Prelude.{ℕ, ◌+◌, ◌-◌, ◌^◌, ◌≤◌, ◌<◌, ◌≡◌, ◌∙◌, true, false, ap, arith, u64, sub64}
use tiny_bios.Memory.{Memory}
use tiny_bios.Memory.Words.{Apart}
use tiny_bios.Malloc.{
  next, size, is_free, set_previous, set_next, set_size, set_free, absorb_next, insert_new_block,
}
use tiny_bios.Malloc.Header.{
  Clear, SameBut, Fields, fields, fields-Apart, set_previous-same, set_next-same, set_size-same,
  set_free-same, set_previous-SameBut, set_next-SameBut, set_size-SameBut, set_free-SameBut,
}

-- What it takes for the new header to fall clear of the others.
pub record Splits (m : Memory) (h wanted : ℕ) : Type 0 where
  pub wanted_min : 32 ≤ wanted
  pub fits : wanted ≤ size m h
  pub top : h + size m h < 2 ^ 64
  pub next_top : next m h < 2 ^ 64
  pub clear_of_next : Clear h (next m h)
  pub new_clear_of_next : Clear (h + wanted) (next m h)
  pub next_taken : is_free m (next m h) ≡ false

-- What the split leaves.
pub record Inserted (m : Memory) (h wanted : ℕ) (m' : Memory) : Type 0 where
  pub front : fields m' h ≡ record (fields m h) { size = wanted; next = h + wanted }
  pub new :
      fields m' (h + wanted)
      ≡ record { previous = h; next = next m h; size = size m h - wanted; is_free = true }
  pub behind : fields m' (next m h) ≡ record (fields m (next m h)) { previous = h + wanted }
  pub same :
      (x : ℕ) → Apart h 32 x 1 → Apart (h + wanted) 32 x 1 → Apart (next m h) 8 x 1 → m' x ≡ m x

module _ (m : Memory) (h n wanted : ℕ) where
  abbrev carve1 : Memory
  carve1 = set_free n true m

  abbrev carve2 : Memory
  carve2 = set_size n (sub64 (size carve1 h) wanted) carve1

  abbrev carve3 : Memory
  carve3 = set_previous n h carve2

  -- The memory once the new header is written.
  abbrev carve : Memory
  carve = set_next n (next carve3 h) carve3

module _ (m : Memory) (h n wanted : ℕ) (clear : Clear h n) (h_top : h < 2 ^ 64)
    (next_top : next m h < 2 ^ 64) (fits : wanted ≤ size m h) (size_top : size m h < 2 ^ 64) where
  front1 : fields (carve1 m h n wanted) h ≡ fields m h
  front1 = fields-Apart n 32 h (set_free-SameBut m n true) (omega arith)

  front2 : fields (carve2 m h n wanted) h ≡ fields m h
  front2 = fields-Apart n 32 h (set_size-SameBut (carve1 m h n wanted) n _) (omega arith) ∙ front1

  front3 : fields (carve3 m h n wanted) h ≡ fields m h
  front3 =
      fields-Apart n 8 h (set_previous-SameBut (carve2 m h n wanted) n h) (omega arith) ∙ front2

  carve-new :
      fields (carve m h n wanted) n
      ≡ record { previous = h; next = next m h; size = size m h - wanted; is_free = true }
  carve-new = ground (
    arith,
    front1,
    front3,
    set_free-same m n true,
    set_size-same (carve1 m h n wanted) n (sub64 (size (carve1 m h n wanted) h) wanted),
    set_previous-same (carve2 m h n wanted) n h,
    set_next-same (carve3 m h n wanted) n (next (carve3 m h n wanted) h),
  )

carve-SameBut : (m : Memory) (h n wanted : ℕ) → SameBut n 32 m (carve m h n wanted)
carve-SameBut m h n wanted x apart =
    set_next-SameBut (carve3 m h n wanted) n _ x apart
    ∙ set_previous-SameBut (carve2 m h n wanted) n h x (omega arith)
    ∙ set_size-SameBut (carve1 m h n wanted) n _ x apart
    ∙ set_free-SameBut m n true x apart

module _ (m : Memory) (h n : ℕ) (wanted nx : ℕ) where
  abbrev link1 : Memory
  link1 = set_previous nx n m

  abbrev link2 : Memory
  link2 = set_size h wanted link1

  -- The memory once the neighbours point at the new header.
  abbrev link : Memory
  link = set_next h n link2

module _ (m : Memory) (h n wanted nx : ℕ) (h_n : Clear h n) (h_nx : Clear h nx) (n_nx : Clear n nx)
    (n_top : n < 2 ^ 64) (wanted_top : wanted < 2 ^ 64) where
  link-front : fields (link m h n wanted nx) h ≡ record (fields m h) { size = wanted; next = n }
  link-front = ground (
    arith,
    fields-Apart nx 8 h (set_previous-SameBut m nx n) (omega arith),
    set_size-same (link1 m h n wanted nx) h wanted,
    set_next-same (link2 m h n wanted nx) h n,
  )

  link-new : fields (link m h n wanted nx) n ≡ fields m n
  link-new =
      fields-Apart h 32 n (set_next-SameBut (link2 m h n wanted nx) h n) h_n
      ∙ fields-Apart h 32 n (set_size-SameBut (link1 m h n wanted nx) h wanted) h_n
      ∙ fields-Apart nx 8 n (set_previous-SameBut m nx n) (omega arith)

  link-behind : fields (link m h n wanted nx) nx ≡ record (fields m nx) { previous = n }
  link-behind =
      fields-Apart h 32 nx (set_next-SameBut (link2 m h n wanted nx) h n) h_nx
      ∙ fields-Apart h 32 nx (set_size-SameBut (link1 m h n wanted nx) h wanted) h_nx
      ∙ set_previous-same m nx n n_top

link-same :
    (m : Memory) (h n wanted nx x : ℕ)
    → Apart h 32 x 1
    → Apart nx 8 x 1
    → link m h n wanted nx x ≡ m x
link-same m h n wanted nx x p q =
    set_next-SameBut (link2 m h n wanted nx) h n x p
    ∙ set_size-SameBut (link1 m h n wanted nx) h wanted x p
    ∙ set_previous-SameBut m nx n x q

module _ (m : Memory) (h wanted : ℕ) (s : Splits m h wanted) where
  new_word : u64 (h + wanted) ≡ h + wanted
  new_word = omega (arith, s.fits, s.top)

  new_fields :
      fields (carve m h (h + wanted) wanted) (h + wanted)
      ≡ record { previous = h; next = next m h; size = size m h - wanted; is_free = true }
  new_fields =
      carve-new m h (h + wanted) wanted (omega (arith, s.wanted_min)) (omega (arith, s.top))
        s.next_top s.fits (omega (arith, s.top))

  new_next : next (carve m h (h + wanted) wanted) (h + wanted) ≡ next m h
  new_next = ap (λ (f : Fields). f.next) new_fields

  next_not_free : is_free (carve m h (h + wanted) wanted) (next m h) ≡ false
  next_not_free =
      ap (λ (f : Fields). f.is_free)
        (fields-Apart (h + wanted) 32 (next m h) (carve-SameBut m h (h + wanted) wanted)
          s.new_clear_of_next)
      ∙ s.next_taken

  nothing_absorbed :
      absorb_next (h + wanted) (carve m h (h + wanted) wanted) ≡ carve m h (h + wanted) wanted
  unfolding absorb_next
  nothing_absorbed = rw (new_next, next_not_free)

  insert_stages :
      insert_new_block h wanted m
      ≡ link (carve m h (h + wanted) wanted) h (h + wanted) wanted (next m h)
  unfolding insert_new_block
  insert_stages = rw (new_word, nothing_absorbed, new_next)

  h_new : Clear h (h + wanted)
  h_new = omega (arith, s.wanted_min)

  new_top : h + wanted < 2 ^ 64
  new_top = omega (arith, s.fits, s.top)

  wanted_top : wanted < 2 ^ 64
  wanted_top = omega (arith, s.fits, s.top)

  carved : SameBut (h + wanted) 32 m (carve m h (h + wanted) wanted)
  carved = carve-SameBut m h (h + wanted) wanted

  linked-Inserted :
      Inserted m h wanted (link (carve m h (h + wanted) wanted) h (h + wanted) wanted (next m h))
  linked-Inserted = record {
    front =
        link-front _ h _ wanted (next m h) h_new s.clear_of_next s.new_clear_of_next new_top
          wanted_top
        ∙ ap (λ (f : Fields). record f { size = wanted; next = h + wanted })
            (fields-Apart (h + wanted) 32 h carved (omega (arith, h_new)));
    new =
        link-new _ h _ wanted (next m h) h_new s.clear_of_next s.new_clear_of_next new_top
          wanted_top
        ∙ new_fields;
    behind =
        link-behind _ h _ wanted (next m h) h_new s.clear_of_next s.new_clear_of_next new_top
          wanted_top
        ∙ ap (λ (f : Fields). record f { previous = h + wanted })
            (fields-Apart (h + wanted) 32 (next m h) carved s.new_clear_of_next);
    same = λ x p q r. link-same _ h (h + wanted) wanted (next m h) x p r ∙ carved x q;
  }

  -- The split shortens the block at `h`, puts a free block between it and the one behind, and
  -- changes nothing but these two headers and the `previous` of the one behind.
  pub insert_new_block-Inserted : Inserted m h wanted (insert_new_block h wanted m)
  insert_new_block-Inserted = rw insert_stages linked-Inserted
