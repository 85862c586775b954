-- ===== src/Fwcfg/Init.antt =====
-- The memory's initialisation from the device: detection, search, and reading of the file.
use tiny_bios.Prelude.{
  ℕ, ◌+◌, ◌*◌, ◌<◌, ◌≤◌, ◌^◌, ◌≡◌, refl, sym, ap, ◌∙◌, arith, Bool, true, false, ◌&&◌, Option, some,
  List, ◌++◌, length, ◌==◌, ◌!=◌, leb, ltb, if◌then◌else◌,
}
use tiny_bios.Memory.{Memory, load16, load32, memset}
use tiny_bios.Memory.Words.{Apart}
use tiny_bios.Memory.Loops.{memset_lem}
use tiny_bios.Port.{Log, Hardware}
use tiny_bios.Port.Triples.{Returns, returns, Returns-bind}
use tiny_bios.Cmos.{MemoryEntry}
use tiny_bios.Fwcfg.{entry_size, find_file_entry, memory_init}
use tiny_bios.Fwcfg.Stream.{selected, offset, IsFwcfg, select-Returns, insb-Returns}
use tiny_bios.Fwcfg.MemoryMap.{
  load32_shift, all_regions, read_file_map-Returns, fwcfg_present-Returns,
}
use tiny_bios.Fwcfg.Directory.{Named, entry_at, HasName, IsEntry, find_loop-Returns}

-- Where every read of port 0x510 gives 0xff, as with a device that has its data at the documented port
-- 0x511 alone: the board's memory initialisation ends, takes the device for missing, whatever it holds,
-- and leaves the map as it was.
memory_init-Missed :
    (bswap_16 bswap_32 : ℕ → ℕ) (granted : ℕ → Bool) (local rounds : ℕ) (file : Option ℕ) (name : ℕ)
    (map : List MemoryEntry) (m : Memory) (hw : Hardware) (log : Log)
    → ((past : Log) → hw past 8 0x510 ≡ 0xff)
    → Returns
        (λ r after. r ≡ some (false, map))
        (memory_init granted local bswap_16 bswap_32 rounds file name map m hw log)
unfolding memory_init load32
memory_init-Missed bswap_16 bswap_32 granted local rounds file name map m hw log quiet =
    Returns-bind _
      (fwcfg_present-Returns (λ _. λ _. 0xff) hw local m log
        (record { serves = quiet; bytes = λ item at. omega arith }))
      λ present log1 h1. rw h1 (returns refl)

module _ (bswap_16 bswap_32 : ℕ → ℕ) (swap_16 : (x : ℕ) → bswap_16 x < 2 ^ 16)
    (swap_32 : (x : ℕ) → bswap_32 x < 2 ^ 32) (items : ℕ → ℕ → ℕ) (hw : Hardware)
    (device : IsFwcfg items hw) (local file name : ℕ) (text : ℕ → ℕ) (apart : Apart file 64 name 56)
    (local_apart : Apart local 4 name 56) where
  abbrev directory : Memory
  directory = items 25

  outside : (a n x : ℕ) → Apart a n x 1 → (leb a x && ltb x (a + n)) ≡ false
  outside a n x p = ground arith

  cleared-HasName : (m : Memory) → HasName m name text → HasName (memset file 0 64 m) name text
  cleared-HasName m has i lt =
      memset_lem file 0 64 m (name + i)
      ∙ ap (λ b. if b then 0 else m (name + i)) (outside file 64 (name + i) (omega arith))
      ∙ has i lt

  -- The first entry of the directory with that name is found.
  pub find_file_entry-Returns :
      (d : ℕ) (m : Memory) (log : Log)
      → d < bswap_32 (load32 directory 0)
      → HasName m name text
      → ((j : ℕ) → j < d → ¬ Named directory (entry_at j + 8) text)
      → Named directory (entry_at d + 8) text
      → Returns
          (λ r after. (r.0 ≡ some file) × IsEntry bswap_16 bswap_32 directory d file r.1)
          (find_file_entry bswap_16 bswap_32 (some file) local name m hw log)
  unfolding find_file_entry
  find_file_entry-Returns d m log few has others named =
      Returns-bind _ (select-Returns items hw device 25 log) λ u log1 h1.
        Returns-bind _ (insb-Returns items hw device 4 local (memset file 0 64 m) log1)
          λ m1 log2 h2.
            Returns-bind _
              (find_loop-Returns bswap_16 bswap_32 swap_16 swap_32 items hw device file name 25 text
                apart d (bswap_32 (load32 m1 local)) 0 m1 log2 (rw (count m1 log1 h1 h2.2) few)
                (h2.0 ∙ h1.0) (omega (arith, h1.1, h2.1))
                (λ i lt.
                  h2.3 (name + i) (outside local 4 (name + i) (omega arith))
                  ∙ cleared-HasName m has i lt)
                (λ j lt. rw (start j) (others j lt)) (rw (start d) named))
              λ r log3 h3. rw (h3.0) (returns (refl, rw (start d) at h3.1))
    where
      start : (j : ℕ) → 0 + j ≡ j
      start j = omega arith

      count :
          (m1 : Memory) (log1 : Log)
          → (selected log1 ≡ 25) × (offset log1 ≡ 0)
          → ((i : ℕ) → i < 4 → m1 (local + i) ≡ items (selected log1) (offset log1 + i))
          → bswap_32 (load32 m1 local) ≡ bswap_32 (load32 directory 0)
      count m1 log1 h1 read = ap bswap_32 (
          load32_shift m1 directory local 0
            (λ i lt. read i lt ∙ (λ j. items (h1.0 j) (h1.1 j + i))))

  -- The file that the entry at that place of the directory names.
  abbrev file_item : ℕ → Memory
  file_item d = items (bswap_16 (load16 directory (entry_at d + 4)))

  -- On a device with its data at the port that is read.
  memory_init-Found :
      (granted : ℕ → Bool) (d n rounds : ℕ) (map : List MemoryEntry) (m : Memory) (log : Log)
      → ((k : ℕ) → granted k ≡ true)
      → load32 (items 0) 0 ≡ 0x554D4551
      → HasName m name text
      → d < bswap_32 (load32 directory 0)
      → ((j : ℕ) → j < d → ¬ Named directory (entry_at j + 8) text)
      → Named directory (entry_at d + 8) text
      → bswap_32 (load32 directory (entry_at d)) ≡ n * entry_size
      → n < rounds
      → n * entry_size < 2 ^ 32
      → length map + length (all_regions (file_item d) n 0) ≤ 128
      → Returns
          (λ r after.
            r
            ≡ some (
              length (map ++ all_regions (file_item d) n 0) != 0,
              map ++ all_regions (file_item d) n 0,
            ))
          (memory_init granted local bswap_16 bswap_32 rounds (some file) name map m hw log)
  unfolding memory_init
  memory_init-Found granted d n rounds map m log grants signature has few others named whole enough
        small room =
      Returns-bind _ (fwcfg_present-Returns items hw local m log device) λ present log1 h1.
        rw (h1 ∙ there signature) (
          Returns-bind _ (find_file_entry-Returns d m log1 few has others named) λ r log2 h2.
            rw (h2.0) (
              rw (item_lem r.1 (h2.1.select)) (
                read_file_map-Returns granted grants items hw device local n rounds file map r.1
                  log2 enough (h2.1.size ∙ whole) small (rw (← item_lem r.1 (h2.1.select)) room))))
    where
      there : {x : ℕ} → x ≡ 0x554D4551 → (x == 0x554D4551) ≡ true
      there e = rw e refl

      item_lem :
          (m1 : Memory)
          → load16 m1 (file + 4) ≡ bswap_16 (load16 directory (entry_at d + 4))
          → file_item d ≡ items (load16 m1 (file + 4))
      item_lem m1 e = λ i. items (sym e i)

  -- Where reads of port 0x510, the selector's, give the bytes of the selected item, in their order, of
  -- a device with its signature, the name is in the memory, and the first entry of the directory with
  -- that name is of a file of whole entries with less than 2^32 bytes, with all allocations granted,
  -- room for what the entries are to add and one round more than entries: the memory initialisation of
  -- the board ends, and the map is the old one with what each entry of that file is to add, in order;
  -- the result says whether it has any entry. On another machine, where every read of port 0x510 gives
  -- 0xff, as where the data is at the documented port 0x511 alone, it ends with the result that it
  -- failed, and with the old map.
  pub memory_init-Returns :
      (granted : ℕ → Bool) (d n rounds : ℕ) (map : List MemoryEntry) (m : Memory) (log : Log)
      → ((k : ℕ) → granted k ≡ true)
      → load32 (items 0) 0 ≡ 0x554D4551
      → HasName m name text
      → d < bswap_32 (load32 directory 0)
      → ((j : ℕ) → j < d → ¬ Named directory (entry_at j + 8) text)
      → Named directory (entry_at d + 8) text
      → bswap_32 (load32 directory (entry_at d)) ≡ n * entry_size
      → n < rounds
      → n * entry_size < 2 ^ 32
      → length map + length (all_regions (file_item d) n 0) ≤ 128
      → (other : Hardware) → ((past : Log) → other past 8 0x510 ≡ 0xff)
      → Returns
          (λ r after.
            r
            ≡ some (
              length (map ++ all_regions (file_item d) n 0) != 0,
              map ++ all_regions (file_item d) n 0,
            ))
          (memory_init granted local bswap_16 bswap_32 rounds (some file) name map m hw log)
        × Returns
            (λ r after. r ≡ some (false, map))
            (memory_init granted local bswap_16 bswap_32 rounds (some file) name map m other log)
  memory_init-Returns granted d n rounds map m log grants signature has few others named whole
        enough small room other quiet =
      (
        memory_init-Found granted d n rounds map m log grants signature has few others named whole
            enough small room,
        memory_init-Missed bswap_16 bswap_32 granted local rounds (some file) name map m other log
            quiet,
      )
