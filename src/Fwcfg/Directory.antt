-- ===== src/Fwcfg/Directory.antt =====
-- The search of the directory for a file by its name.
use tiny_bios.Prelude.{
  ℕ, zero, suc, ◌+◌, ◌*◌, ◌<◌, ◌^◌, ◌≡◌, ◌≢◌, refl, sym, ap, ◌∙◌, arith, true, false, ◌&&◌, ◌==◌,
  leb, ltb,
}
use tiny_bios.Memory.{Memory, load16, load32, store16, store32}
use tiny_bios.Memory.Words.{
  Apart, store16-other, store32-other, load16-store16_same, load32-store32_same,
}
use tiny_bios.Port.{Log, Hardware}
use tiny_bios.Port.Triples.{Returns, returns, Returns-bind, Returns-mono}
use tiny_bios.Text.{strncmp}
use tiny_bios.Text.Strings.{Same, strncmp-Same}
use tiny_bios.Fwcfg.{insb, file_size, name_size, swap_fields, find_loop}
use tiny_bios.Fwcfg.MemoryMap.{load32_shift, shifted}
use tiny_bios.Fwcfg.Stream.{selected, offset, IsFwcfg, insb-Returns}

-- The characters at a place of an item are this name, up to its end or in all 56.
abbrev pub Named : (item : Memory) → (at : ℕ) → (name : ℕ → ℕ) → Type 0
Named item at name =
    (i : ℕ) → i < 56 → ((j : ℕ) → j < i → item (at + j) ≢ 0) → item (at + i) ≡ name i

-- Where an entry of the directory starts, behind the count.
abbrev pub entry_at : ℕ → ℕ
entry_at k = 4 + k * 64

-- The memory has the name there.
abbrev pub HasName : Memory → (at : ℕ) → (name : ℕ → ℕ) → Type 0
HasName m at name = (i : ℕ) → i < 56 → m (at + i) ≡ name i

-- An entry as `fwcfg_find_file_entry` leaves it: the size and the selector in the processor's order.
pub record IsEntry (bswap_16 bswap_32 : ℕ → ℕ) (item : Memory) (k : ℕ) (file : ℕ) (m : Memory)
    : Type 0 where
  pub size : load32 m file ≡ bswap_32 (load32 item (entry_at k))
  pub select : load16 m (file + 4) ≡ bswap_16 (load16 item (entry_at k + 4))
  pub name : (i : ℕ) → i < 56 → m (file + 8 + i) ≡ item (entry_at k + 8 + i)

module _ (item m : Memory) (file name at : ℕ) (text : ℕ → ℕ)
    (read : (i : ℕ) → i < 64 → m (file + i) ≡ item (at + i)) (has : HasName m name text) where
  character : (i : ℕ) → i < 56 → m (file + 8 + i) ≡ item (at + 8 + i)
  character i lt = ap m (omega arith) ∙ read (8 + i) (omega arith) ∙ ap item (omega arith)

  Same-Named : Same 56 m (file + 8) name → Named item (at + 8) text
  Same-Named same i lt before =
      sym (character i lt)
      ∙ same i lt (λ j lt' e. before j lt' (sym (character j (omega arith)) ∙ e))
      ∙ has i lt

  Named-Same : Named item (at + 8) text → Same 56 m (file + 8) name
  Named-Same named i lt before =
      character i lt
      ∙ named i lt (λ j lt' e. before j lt' (character j (omega arith) ∙ e))
      ∙ sym (has i lt)

  found_test : Named item (at + 8) text → (strncmp name_size m (file + 8) name == 0) ≡ true
  found_test named = zero_test _ ((strncmp-Same 56 m (file + 8) name).1 (Named-Same named))
    where
      zero_test : (x : ℕ) → x ≡ 0 → (x == 0) ≡ true
      zero_test x e = ground arith

  other_test : ¬ Named item (at + 8) text → (strncmp name_size m (file + 8) name == 0) ≡ false
  other_test other =
      nonzero_test _ λ e. other (Same-Named ((strncmp-Same 56 m (file + 8) name).0 e))
    where
      nonzero_test : (x : ℕ) → (x ≡ 0 → ⊥) → (x == 0) ≡ false
      nonzero_test x ne = ground arith

module _ (bswap_16 bswap_32 : ℕ → ℕ) (swap_16 : (x : ℕ) → bswap_16 x < 2 ^ 16)
    (swap_32 : (x : ℕ) → bswap_32 x < 2 ^ 32) where
  module _ (item m : Memory) (file k : ℕ)
      (read : (i : ℕ) → i < 64 → m (file + i) ≡ item (entry_at k + i)) where
    abbrev selector : ℕ
    selector = bswap_16 (load16 m (file + 4))

    abbrev swapped : Memory
    swapped = store16 m (file + 4) selector

    selector_lem : load16 m (file + 4) ≡ load16 item (entry_at k + 4)
    unfolding load16
    selector_lem = omega (
      arith,
      shifted m item file (entry_at k) 64 4 read 0 (omega arith),
      shifted m item file (entry_at k) 64 4 read 1 (omega arith),
      ap m {x = file + 4 + 0} {y = file + 4} (omega arith),
      ap item {x = entry_at k + 4 + 0} {y = entry_at k + 4} (omega arith),
    )

    size_lem : load32 swapped file ≡ load32 item (entry_at k)
    size_lem = load32_shift swapped item file (entry_at k) (λ i lt.
        store16-other m (file + 4) selector (file + i) (λ e. omega arith) (λ e. omega arith)
        ∙ read i (omega arith))

    module _ (v : ℕ) where
      abbrev stored : Memory
      stored = store32 swapped file v

      select_kept : load16 stored (file + 4) ≡ selector
      unfolding load16
      select_kept = omega (
        arith,
        store32-other swapped file v (file + 4) (omega arith),
        store32-other swapped file v (file + 4 + 1) (omega arith),
        load16-store16_same m (file + 4) selector,
        swap_16 (load16 m (file + 4)),
      )

      name_kept : (i : ℕ) → i < 56 → stored (file + 8 + i) ≡ item (entry_at k + 8 + i)
      name_kept i lt =
          store32-other swapped file v (file + 8 + i) (omega arith)
          ∙ store16-other m (file + 4) selector (file + 8 + i) (λ e. omega arith) (λ e. omega arith)
          ∙ shifted m item file (entry_at k) 64 8 read i (omega arith)

    swap_fields-IsEntry :
        IsEntry bswap_16 bswap_32 item k file (swap_fields bswap_16 bswap_32 file m)
    unfolding swap_fields
    swap_fields-IsEntry = record {
      size =
          load32-store32_same swapped file (bswap_32 (load32 swapped file))
          ∙ omega (arith, swap_32 (load32 swapped file))
          ∙ ap bswap_32 size_lem;
      select = select_kept (bswap_32 (load32 swapped file)) ∙ ap bswap_16 selector_lem;
      name = name_kept (bswap_32 (load32 swapped file));
    }

  module _ (items : ℕ → ℕ → ℕ) (hw : Hardware) (device : IsFwcfg items hw) (file name sel : ℕ)
      (text : ℕ → ℕ) (apart : Apart file 64 name 56) where
    -- One entry is read, and the name that is looked for stays in its place.
    entry-Returns :
        (k : ℕ) (m : Memory) (log : Log)
        → selected log ≡ sel
        → offset log ≡ entry_at k
        → HasName m name text
        → Returns
            (λ m1 after.
              (selected after ≡ sel)
              × (offset after ≡ entry_at (k + 1))
              × ((i : ℕ) → i < 64 → m1 (file + i) ≡ items sel (entry_at k + i))
              × HasName m1 name text)
            (insb file_size file m hw log)
    entry-Returns k m log item here has =
        Returns-mono (insb-Returns items hw device 64 file m log) λ m1 after h. (
          h.0 ∙ item,
          omega (arith, h.1, here),
          (λ i lt. h.2 i lt ∙ (λ j. items (item j) (here j + i))),
          (λ i lt. h.3 (name + i) (outside (name + i) (omega arith)) ∙ has i lt),
        )
      where
        outside : (x : ℕ) → Apart file 64 x 1 → (leb file x && ltb x (file + 64)) ≡ false
        outside x p = ground arith

    -- The first entry of that name is found, `d` entries on.
    pub find_loop-Returns :
        (d left k : ℕ) (m : Memory) (log : Log)
        → d < left
        → selected log ≡ sel
        → offset log ≡ entry_at k
        → HasName m name text
        → ((j : ℕ) → j < d → ¬ Named (items sel) (entry_at (k + j) + 8) text)
        → Named (items sel) (entry_at (k + d) + 8) text
        → Returns
            (λ r after. (r.0 ≡ true) × IsEntry bswap_16 bswap_32 (items sel) (k + d) file r.1)
            (find_loop bswap_16 bswap_32 left file name m hw log)
    unfolding find_loop
    find_loop-Returns d zero k m log few item here has others named = absurd (omega arith)
    find_loop-Returns zero (suc left) k m log few item here has others named =
        Returns-bind _ (entry-Returns k m log item here has) λ m1 log1 h.
          rw (found_test (items sel) m1 file name (entry_at k) text h.2 h.3 (rw (← same) named))
            (returns (refl, rw same (swap_fields-IsEntry (items sel) m1 file k h.2)))
      where
        same : k + 0 ≡ k
        same = omega arith
    find_loop-Returns (suc d) (suc left) k m log few item here has others named =
        Returns-bind _ (entry-Returns k m log item here has) λ m1 log1 h.
          rw
            (other_test (items sel) m1 file name (entry_at k) text h.2 h.3
              (λ n. others 0 (omega arith) (rw first n)))
            (Returns-mono
              (find_loop-Returns d left (k + 1) m1 log1 (omega arith) h.0 h.1 h.3
                (λ j lt n. others (suc j) (omega arith) (rw (next j) n)) (rw (← next d) named))
              λ r after e. rw (next d) e)
      where
        first : k + 0 ≡ k
        first = omega arith

        next : (j : ℕ) → k + suc j ≡ k + 1 + j
        next j = omega arith
