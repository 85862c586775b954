-- ===== src/Fwcfg/MemoryMap.antt =====
-- The memory map that is read from the device.
use tiny_bios.Prelude.{
  ℕ, zero, suc, ◌+◌, ◌-◌, ◌*◌, ◌<◌, ◌≤◌, ◌^◌, ◌≡◌, refl, sym, ap, ◌∙◌, arith, Bool, true, false,
  some, List, [], ◌∷◌, ◌++◌, length, length-append, ◌==◌, ◌!=◌, ltb, u32,
}
use mathlib.Core.List.{append_assoc, append-nil}
use tiny_bios.Memory.{Memory, load16, load32, load64}
use tiny_bios.Port.{Log, Hardware}
use tiny_bios.Port.Triples.{Returns, returns, Returns-bind, Returns-mono}
use tiny_bios.Cmos.{MemoryEntry}
use tiny_bios.Fwcfg.{
  load_entry, entry_size, regions, add_from_to, add_all, read_map, finish, read_file_map,
  fwcfg_present,
}
use tiny_bios.Fwcfg.Stream.{selected, offset, IsFwcfg, select-Returns, insb-Returns}

-- The same bytes at two places.
pub load32_shift :
    (m m' : Memory) (a b : ℕ)
    → ((i : ℕ) → i < 4 → m (a + i) ≡ m' (b + i))
    → load32 m a ≡ load32 m' b
unfolding load32
load32_shift m m' a b same = omega (
  arith,
  ap m {x = a} {y = a + 0} (omega arith),
  same 0 (omega arith),
  ap m' {x = b + 0} {y = b} (omega arith),
  same 1 (omega arith),
  same 2 (omega arith),
  same 3 (omega arith),
)

pub shifted :
    (m m' : Memory) (a b n k : ℕ)
    → ((i : ℕ) → i < n → m (a + i) ≡ m' (b + i))
    → (i : ℕ) → k + i < n
    → m (a + k + i) ≡ m' (b + k + i)
shifted m m' a b n k same i lt =
    ap m {x = a + k + i} {y = a + (k + i)} (omega arith)
    ∙ same (k + i) lt
    ∙ ap m' {x = b + (k + i)} {y = b + k + i} (omega arith)

load64_shift :
    (m m' : Memory) (a b : ℕ)
    → ((i : ℕ) → i < 8 → m (a + i) ≡ m' (b + i))
    → load64 m a ≡ load64 m' b
unfolding load64
load64_shift m m' a b same = omega (
  arith,
  load32_shift m m' a b (λ i lt. same i (omega arith)),
  load32_shift m m' (a + 4) (b + 4) (λ i lt. shifted m m' a b 8 4 same i (omega arith)),
)

load_entry_shift :
    (m m' : Memory) (a b : ℕ)
    → ((i : ℕ) → i < entry_size → m (a + i) ≡ m' (b + i))
    → load_entry m a ≡ load_entry m' b
unfolding load_entry
load_entry_shift m m' a b same = λ i. record {
  addr = load64_shift m m' a b (λ j lt. same j (omega arith)) i;
  size = load64_shift m m' (a + 8) (b + 8) (λ j lt. shifted m m' a b 20 8 same j (omega arith)) i;
  type =
      load32_shift m m' (a + 16) (b + 16) (λ j lt. shifted m m' a b 20 16 same j (omega arith)) i;
}

abbrev span : (kind from size : ℕ) → MemoryEntry
span kind from size = record { addr = from; size = size; type = kind }

-- What an entry of the file is to add: nothing, unless it is of usable memory; itself, unless it
-- starts at 0. Such an entry stands for five: below 128 kB and from 1 MB up to 16 MB usable memory
-- (1), from 640 kB a range of devices (3), from 15 MB on 16 MB that are reserved (2), and its own
-- size from 16 MB on. The sizes of the first four are one less than those of the ranges.
abbrev laid_out_from : (from size kind : ℕ) → List MemoryEntry
laid_out_from from zero kind = []
laid_out_from from (suc size) zero = []
laid_out_from from (suc size) (suc (suc kind)) = []
laid_out_from zero (suc size) (suc zero) =
    span 1 0 (128 * 2 ^ 10 - 1)
    ∷ span 3 (640 * 2 ^ 10) (2 ^ 20 - 1)
    ∷ span 1 (2 ^ 20) (15 * 2 ^ 20 - 1)
    ∷ span 2 (15 * 2 ^ 20) (16 * 2 ^ 20 - 1)
    ∷ span 1 (16 * 2 ^ 20) (suc size)
    ∷ []
laid_out_from (suc from) (suc size) (suc zero) = span 1 (suc from) (suc size) ∷ []

abbrev pub laid_out : MemoryEntry → List MemoryEntry
laid_out e = laid_out_from e.addr e.size e.type

regions_lem : (from size kind : ℕ) → regions (span kind from size) ≡ laid_out_from from size kind
unfolding regions
regions_lem from zero kind = refl
regions_lem from (suc size) zero = ground arith
regions_lem from (suc size) (suc (suc kind)) = ground arith
regions_lem zero (suc size) (suc zero) = ground arith
regions_lem (suc from) (suc size) (suc zero) = ground arith

regions-laid_out : (e : MemoryEntry) → regions e ≡ laid_out e
regions-laid_out e = regions_lem e.addr e.size e.type

-- What the entries of an item add, `n` of them from number `k` on.
unfoldable pub all_regions : (item : Memory) → (n k : ℕ) → List MemoryEntry
all_regions item zero k = []
all_regions item (suc n) k =
    laid_out (load_entry item (k * entry_size)) ++ all_regions item n (k + 1)

module _ (granted : ℕ → Bool) (grants : (n : ℕ) → granted n ≡ true) where
  add_all_lem :
      (es map : List MemoryEntry)
      → length map + length es ≤ 128
      → add_all granted map es ≡ some (map ++ es)
  unfolding add_all add_from_to
  add_all_lem [] map room = ap some (sym (append-nil map))
  add_all_lem (e ∷ es) map room = rw (grants (length map)) (
      rw (has_room (length map) (omega arith)) (
        add_all_lem es (map ++ e ∷ []) (omega (arith, length-append map (e ∷ [])))
        ∙ ap some (append_assoc map (e ∷ []) es)))
    where
      has_room : (n : ℕ) → n < 128 → ltb n 128 ≡ true
      has_room n few = ground arith

  module _ (items : ℕ → ℕ → ℕ) (hw : Hardware) (device : IsFwcfg items hw) (local : ℕ) where
    read_map-Returns :
        (n rounds k pos size sel : ℕ) (map : List MemoryEntry) (m : Memory) (log : Log)
        → n < rounds
        → pos ≡ k * entry_size
        → size ≡ pos + n * entry_size
        → size < 2 ^ 32
        → selected log ≡ sel
        → offset log ≡ pos
        → length map + length (all_regions (items sel) n k) ≤ 128
        → Returns
            (λ r after. r ≡ some (map ++ all_regions (items sel) n k))
            (read_map granted local rounds pos size map m hw log)
    unfolding read_map all_regions
    read_map-Returns n zero k pos size sel map m log few at whole small item here room =
        absurd (omega arith)
    read_map-Returns zero (suc rounds) k pos size sel map m log few at whole small item here room =
        rw (at_end pos size (omega arith)) (returns (ap some (sym (append-nil map))))
      where
        at_end : (p s : ℕ) → s ≡ p → ltb p s ≡ false
        at_end p s e = ground arith
    read_map-Returns (suc n) (suc rounds) k pos size sel map m log few at whole small item here
          room =
        rw (more pos size (omega arith)) (
          Returns-bind _ (insb-Returns items hw device entry_size local m log) λ m1 log1 h.
            rw (entry m1 (h.2), regions-laid_out (load_entry (items sel) (k * entry_size)))
              (rw
                (add_all_lem (laid_out (load_entry (items sel) (k * entry_size))) map
                  (omega (arith, lengths)))
                (Returns-mono
                  (read_map-Returns n rounds (k + 1) (u32 (pos + entry_size)) size sel
                    (map ++ laid_out (load_entry (items sel) (k * entry_size))) m1 log1
                    (omega arith) (omega arith) (omega arith) small (h.0 ∙ item)
                    (omega (arith, h.1))
                    (omega (
                      arith,
                      lengths,
                      length-append map (laid_out (load_entry (items sel) (k * entry_size))),
                    )))
                  (λ r log2 e. e ∙ ap some (append_assoc map _ _)))))
      where
        more : (p s : ℕ) → p < s → ltb p s ≡ true
        more p s e = ground arith

        entry :
            (m1 : Memory)
            → ((i : ℕ) → i < entry_size → m1 (local + i) ≡ items (selected log) (offset log + i))
            → load_entry m1 local ≡ load_entry (items sel) (k * entry_size)
        entry m1 read =
            load_entry_shift m1 (items sel) local (k * entry_size)
              (λ i lt. read i lt ∙ λ j. items (item j) (place i j))
          where
            place : (i : ℕ) → offset log + i ≡ k * entry_size + i
            place i = omega (arith, here, at)

        lengths :
            length map
              + length (laid_out (load_entry (items sel) (k * entry_size)))
              + length (all_regions (items sel) n (k + 1))
            ≤ 128
        lengths = omega (
          arith,
          room,
          length-append (laid_out (load_entry (items sel) (k * entry_size)))
              (all_regions (items sel) n (k + 1)),
        )

    -- On such a device, for a file entry whose file is whole entries of less than 2^32 bytes, with all
    -- allocations granted, room for what the entries add, and one round more than there are entries: the memory map is
    -- read to its end, it is the old one with what each entry of the file adds, in order, and the result says whether it
    -- has any entry.
    pub read_file_map-Returns :
        (n rounds file : ℕ) (map : List MemoryEntry) (m : Memory) (log : Log)
        → n < rounds
        → load32 m file ≡ n * entry_size
        → n * entry_size < 2 ^ 32
        → length map + length (all_regions (items (load16 m (file + 4))) n 0) ≤ 128
        → Returns
            (λ r after.
              r
              ≡ some (
                length (map ++ all_regions (items (load16 m (file + 4))) n 0) != 0,
                map ++ all_regions (items (load16 m (file + 4))) n 0,
              ))
            (read_file_map granted local rounds (some file) map m hw log)
    unfolding read_file_map finish
    read_file_map-Returns n rounds file map m log few size small room =
        Returns-bind _ (select-Returns items hw device (load16 m (file + 4)) _) λ u log1 h1.
          Returns-bind _
            (read_map-Returns n rounds 0 0 (load32 m file) (load16 m (file + 4)) map m log1 few
              (omega arith) (omega (arith, size)) (omega (arith, size)) (h1.0) (h1.1) room)
            λ r log2 h2. rw h2 (returns refl)

-- The device is taken for present exactly if its first item starts with the signature.
pub fwcfg_present-Returns :
    (items : ℕ → ℕ → ℕ) (hw : Hardware) (local : ℕ) (m : Memory) (log : Log)
    → IsFwcfg items hw
    → Returns (λ r after. r ≡ (load32 (items 0) 0 == 0x554D4551)) (fwcfg_present local m hw log)
unfolding fwcfg_present
fwcfg_present-Returns items hw local m log device =
    Returns-bind _ (select-Returns items hw device 0 log) λ u log1 h1.
      Returns-bind _ (insb-Returns items hw device 4 local m log1) λ m1 log2 h2. returns (
        ap (λ (t : ℕ). t == 0x554D4551)
          (load32_shift m1 (items 0) local 0
            (λ i lt. h2.2 i lt ∙ λ j. items (h1.0 j) (place log1 i (h1.1) j))))
  where
    place : (log1 : Log) (i : ℕ) → offset log1 ≡ 0 → offset log1 + i ≡ 0 + i
    place log1 i e = omega (arith, e)
