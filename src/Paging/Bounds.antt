-- ===== src/Paging/Bounds.antt =====
-- How much `init_paging` maps.
use tiny_bios.Prelude.{
  ℕ, zero, suc, ◌+◌, ◌*◌, ◌/◌, ◌%◌, ◌^◌, ◌≤◌, ◌<◌, ◌≡◌, refl, sym, ap, ◌∙◌, arith, true, false,
  ◌&&◌, Option, some, List, [], ◌∷◌, length, ◌==◌, ◌!=◌, leb, ltb, u64, if◌then◌else◌, Bool-cases,
  inl, inr,
}
use tiny_bios.Port.{Log, Hardware}
use tiny_bios.Port.Triples.{Returns, returns}
use tiny_bios.Cmos.{MemoryEntry}
use tiny_bios.Paging.{
  PageTableEntry, empty_entry, megabytes_loop, memory_size_in_megabytes, map_page, map_entry,
  Tables, next_directory, next_level, map_one, map_pages, fill_tables, pages_for, pdpt_count,
  pml4_count, init_paging,
}

megabytes_loop-le :
    (es : List MemoryEntry) (ret tmp : ℕ) → megabytes_loop es ret tmp ≤ ret + length es
unfolding megabytes_loop
megabytes_loop-le [] ret tmp = omega arith
megabytes_loop-le (e ∷ es) ret tmp =
    ground (arith, megabytes_loop-le es (ret + 1) 0, megabytes_loop-le es ret (u64 (tmp + e.size)))

pages_for-le : (es : List MemoryEntry) → length es < 256 → pages_for es * 4 ≤ length es
unfolding pages_for memory_size_in_megabytes
pages_for-le es few = omega (arith, megabytes_loop-le es 0 0)

-- While 1024 pages are mapped at most, only the page table is written.
module _ (pte_at pdpt_at : ℕ) where
  next_directory-few :
      (page : ℕ) (t : Tables) → page < 1024 → next_directory pte_at pdpt_at page t ≡ t
  unfolding next_directory
  next_directory-few page t few = rw (no_page page few) refl
    where
      no_page : (n : ℕ) → n < 1024 → ((n != 0) && (n % 1024 == 0)) ≡ false
      no_page n small = ground arith

  next_level-few : (t : Tables) → t.pdpt_off ≡ 0 → next_level pte_at pdpt_at t ≡ t
  unfolding next_level
  next_level-few t off = rw off refl

  abbrev put : (page : ℕ) → Tables → Tables
  put page t = record t { pte_array = map_entry t.pte_array page (page * 0x1000) }

  map_one-few :
      (page : ℕ) (t : Tables)
      → page < 1024
      → t.pdpt_off ≡ 0
      → map_one pte_at pdpt_at page t ≡ put page t
  unfolding map_one
  map_one-few page t few off =
      ap (next_level pte_at pdpt_at) (next_directory-few page (put page t) few)
      ∙ next_level-few (put page t) off

  module _ (page left : ℕ) where
    same : (i : ℕ) → (i == page) ≡ true → i ≡ page
    same i here = ground arith

    behind : (i : ℕ) → (i == page) ≡ true → (leb (page + 1) i && ltb i (page + 1 + left)) ≡ false
    behind i here = ground arith

    first_one : (i : ℕ) → (i == page) ≡ true → (leb page i && ltb i (page + suc left)) ≡ true
    first_one i here = ground arith

    shifted :
        (i : ℕ)
        → (i == page) ≡ false
        → (leb (page + 1) i && ltb i (page + 1 + left)) ≡ (leb page i && ltb i (page + suc left))
    shifted i there = ground arith

  map_pages-few :
      (left page : ℕ) (t : Tables)
      → page + left ≤ 1024
      → t.pdpt_off ≡ 0
      → ((map_pages pte_at pdpt_at left page t).pdpt ≡ t.pdpt)
        × ((map_pages pte_at pdpt_at left page t).pml4 ≡ t.pml4)
        × ((i : ℕ)
            → (map_pages pte_at pdpt_at left page t).pte_array i ≡ (
                if leb page i && ltb i (page + left)
                then map_page (t.pte_array i) (i * 0x1000)
                else t.pte_array i))
  unfolding map_pages map_entry map_page
  map_pages-few zero page t few off = (refl, refl, λ i. rw (nothing page i) refl)
    where
      nothing : (p i : ℕ) → (leb p i && ltb i (p + 0)) ≡ false
      nothing p i = ground arith
  map_pages-few (suc left) page t few off =
      rw (map_pages, map_one-few page t (omega arith) off)
        (let rest = map_pages-few left (page + 1) (put page t) (omega arith) off in
          (rest.0, rest.1, λ i. rest.2 i ∙ step i))
    where
      step :
          (i : ℕ)
          → (if leb (page + 1) i && ltb i (page + 1 + left)
              then map_page ((put page t).pte_array i) (i * 0x1000)
              else (put page t).pte_array i)
            ≡ (if leb page i && ltb i (page + suc left)
                then map_page (t.pte_array i) (i * 0x1000)
                else t.pte_array i)
      step i = elim (Bool-cases (i == page)) [
        | inl here ↦ rw here (
            rw (behind page left i here) (
              rw (first_one page left i here) (
                ap (λ (k : ℕ). map_page (t.pte_array i) (k * 0x1000))
                  (sym (same page left i here)))))
        | inr there ↦ rw there (
            ap (λ b. if b then map_page (t.pte_array i) (i * 0x1000) else t.pte_array i)
              (shifted page left i there))
      ]

-- What the tables have for so many pages.
pub record IsMapped (pages : ℕ) (t : Tables) : Type 0 where
  -- the pages that are asked for, and no entry behind them
  pub mapped : (i : ℕ) → i < pages → t.pte_array i ≡ map_page empty_entry (i * 0x1000)
  -- the address is shifted out of each of them
  pub address_lost : (i : ℕ) → i < pages → (t.pte_array i).addr ≡ 0
  pub pte_inside : (i : ℕ) → pages ≤ i → t.pte_array i ≡ empty_entry
  -- of the other tables, the first entry
  pub pdpt_inside : (i : ℕ) → 0 < i → t.pdpt i ≡ empty_entry
  pub pml4_inside : (i : ℕ) → 0 < i → t.pml4 i ≡ empty_entry

fill_tables-IsMapped :
    (pte_at pdpt_at pages : ℕ) → pages ≤ 1024 → IsMapped pages (fill_tables pte_at pdpt_at pages)
unfolding fill_tables map_entry map_page
fill_tables-IsMapped pte_at pdpt_at pages few =
    let r = map_pages-few pte_at pdpt_at pages 0 _ (omega arith) refl in
    record {
      mapped = λ i below. r.2 i ∙ rw (inside i below) refl;
      address_lost = λ i below.
          ap (λ (e : PageTableEntry). e.addr) {y = map_page empty_entry (i * 0x1000)}
            (r.2 i ∙ rw (inside i below) refl)
          ∙ lost i (omega arith);
      pte_inside = λ i from. r.2 i ∙ rw (outside i from) refl;
      pdpt_inside = λ i pos. ap (λ f. f i) (r.0) ∙ rw (not_first i pos) refl;
      pml4_inside = λ i pos. ap (λ f. f i) (r.1) ∙ rw (not_first i pos) refl;
    }
  where
    lost : (i : ℕ) → i < 1024 → i * 0x1000 / 2 ^ 22 % 2 ^ 58 ≡ 0
    lost i few = omega arith

    inside : (i : ℕ) → i < pages → (leb 0 i && ltb i (0 + pages)) ≡ true
    inside i below = ground arith

    outside : (i : ℕ) → pages ≤ i → (leb 0 i && ltb i (0 + pages)) ≡ false
    outside i from = ground arith

    not_first : (i : ℕ) → 0 < i → (i == 0) ≡ false
    not_first i pos = ground arith

-- For a memory map of 255 entries at most, and where the allocator grants the three tables: `init_paging` returns,
-- it maps at most one page of 4096 bytes for every four entries, each to the address 0, and it writes no table behind
-- the entries that it asked for.
pub init_paging-Returns :
    (pte pdpt pml4 : ℕ → Option ℕ) (es : List MemoryEntry) (pte_at pdpt_at pml4_at : ℕ)
    (hw : Hardware) (log : Log)
    → length es < 256
    → pte (pages_for es) ≡ some pte_at
    → pdpt (pdpt_count (pages_for es)) ≡ some pdpt_at
    → pml4 (pml4_count (pages_for es)) ≡ some pml4_at
    → Returns
        (λ r after.
          (r.0 ≡ pml4_at) × (pages_for es * 4 ≤ length es) × IsMapped (pages_for es) (r.1))
        (init_paging pte pdpt pml4 es hw log)
unfolding init_paging
init_paging-Returns pte pdpt pml4 es pte_at pdpt_at pml4_at hw log few p q r = rw p (
    rw q (
      rw r (
        returns (
          refl,
          pages_for-le es few,
          fill_tables-IsMapped pte_at pdpt_at (pages_for es) (omega (arith, pages_for-le es few)),
        ))))
