-- ===== src/Paging.antt =====
-- src/mm/paging.c with src/include/mm/paging.h: the page tables. A table is a function of the index;
-- the answers of the allocator, which clears what it grants, are parameters.
pub mod Bounds
mod Tests
use tiny_bios.Prelude.{
  ℕ, zero, suc, ◌+◌, ◌*◌, ◌/◌, ◌%◌, ◌^◌, bit_and, Bool, true, false, ◌&&◌, Option, none, some, List,
  [], ◌∷◌, ◌==◌, ◌!=◌, leb, u64, ◌>>>◌, if◌then◌else◌,
}
use tiny_bios.Port.{Cmd, pure, ◌>>=◌, ◌>>◌, blogf, panic}
use tiny_bios.Cmos.{MemoryEntry}

pub record PageTableEntry : Type 0 where
  pub present : ℕ
  pub writable : ℕ
  pub unprivileged : ℕ
  pub write_through : ℕ
  pub cache_disable : ℕ
  pub accessed : ℕ
  pub resvd1 : ℕ
  pub addr : ℕ

abbrev pub empty_entry : PageTableEntry
empty_entry = record {
  present = 0;
  writable = 0;
  unprivileged = 0;
  write_through = 0;
  cache_disable = 0;
  accessed = 0;
  resvd1 = 0;
  addr = 0;
}

-- 69 bits, packed into nine bytes.
abbrev pub entry_size : ℕ
entry_size = 9

-- The loop over the entries of the map, with `ret` and `tmp`.
unfoldable pub megabytes_loop : List MemoryEntry → (ret tmp : ℕ) → ℕ
megabytes_loop [] ret tmp = ret
megabytes_loop (e ∷ entries) ret tmp =
    let sum = u64 (tmp + e.size) in
    if leb (1024 * 1024) sum
    then megabytes_loop entries (ret + 1) 0
    else megabytes_loop entries ret sum

unfoldable pub memory_size_in_megabytes : List MemoryEntry → ℕ
memory_size_in_megabytes entries = megabytes_loop entries 0 0

unfoldable pub map_page : PageTableEntry → (addr : ℕ) → PageTableEntry
map_page entry addr = record entry {
  addr = (addr >>> 22) % 2 ^ 58;
  present = 1;
  writable = 1;
  unprivileged = 1;
}

unfoldable pub map_address : (addr size : ℕ) → Cmd Bool
map_address addr size =
    if bit_and size 0x00000fff != 0
    then (do blogf "refusing to map unaligned memory: 0x%x bytes" (size ∷ []); pure false)
    else pure true

abbrev pub Table : Type 0
Table = ℕ → PageTableEntry

unfoldable pub map_entry : Table → (index addr : ℕ) → Table
map_entry t index addr i = if i == index then map_page (t i) addr else t i

pub record Tables : Type 0 where
  pub pte_array : Table
  pub pdpt : Table
  pub pml4 : Table
  pub pdpt_off : ℕ
  pub pml4_off : ℕ

-- The addresses of the page table and of the directory of page tables.
module _ (pte_at pdpt_at : ℕ) where
  unfoldable pub next_directory : (page : ℕ) → Tables → Tables
  next_directory page t =
      if (page != 0) && (page % 1024 == 0)
      then record t {
        pdpt_off = t.pdpt_off + 1;
        pdpt = map_entry t.pdpt (t.pdpt_off + 1) (pte_at + page * entry_size);
      }
      else t

  unfoldable pub next_level : Tables → Tables
  next_level t =
      if (t.pdpt_off != 0) && (t.pdpt_off % 1024 == 0)
      then record t {
        pml4_off = t.pml4_off + 1;
        pml4 = map_entry t.pml4 (t.pml4_off + 1) (pdpt_at + t.pdpt_off * entry_size);
      }
      else t

  unfoldable pub map_one : (page : ℕ) → Tables → Tables
  map_one page t =
      next_level
        (next_directory page (record t { pte_array = map_entry t.pte_array page (page * 0x1000) }))

  -- The loop from `page` on, with `left` pages left.
  unfoldable pub map_pages : (left page : ℕ) → Tables → Tables
  map_pages zero page t = t
  map_pages (suc left) page t = map_pages left (page + 1) (map_one page t)

  unfoldable pub fill_tables : (pages_to_map : ℕ) → Tables
  fill_tables pages_to_map = map_pages pages_to_map 0 (record {
    pte_array = λ _. empty_entry;
    pdpt = map_entry (λ _. empty_entry) 0 pte_at;
    pml4 = map_entry (λ _. empty_entry) 0 pdpt_at;
    pdpt_off = 0;
    pml4_off = 0;
  })

unfoldable pub pages_for : List MemoryEntry → ℕ
pages_for entries = u64 (memory_size_in_megabytes entries * 1024) / 0x1000

unfoldable pub at_least_one : ℕ → ℕ
at_least_one n = if n == 0 then 1 else n

-- How many entries the three calls of `alloc_map` ask for.
unfoldable pub pdpt_count : (pages_to_map : ℕ) → ℕ
pdpt_count pages_to_map = at_least_one (pages_to_map / 1024)

unfoldable pub pml4_count : (pages_to_map : ℕ) → ℕ
pml4_count pages_to_map = at_least_one (pages_to_map / 1024 / 1024)

-- `alloc_map` of so many entries. The result is what `set_pml4` hands to the processor, and the
-- tables.
unfoldable pub init_paging :
    (pte pdpt pml4 : (entry_count : ℕ) → Option ℕ) → List MemoryEntry → Cmd (ℕ × Tables)
init_paging pte pdpt pml4 entries =
    let pages_to_map = pages_for entries in
    start (pte pages_to_map) (pdpt (pdpt_count pages_to_map)) (pml4 (pml4_count pages_to_map))
      pages_to_map
  where
    start : Option ℕ → Option ℕ → Option ℕ → ℕ → Cmd (ℕ × Tables)
    start (some pte_at) (some pdpt_at) (some pml4_at) pages =
        pure (pml4_at, fill_tables pte_at pdpt_at pages)
    start (some pte_at) (some pdpt_at) none pages =
        panic "Failed to allocate memory for paging structures"
    start (some pte_at) none pml4_given pages =
        panic "Failed to allocate memory for paging structures"
    start none pdpt_given pml4_given pages = panic "Failed to allocate memory for paging structures"
