-- ===== src/Cmos/MemoryMap.antt =====
-- The memory map that the two size bytes of the CMOS give.
use tiny_bios.Prelude.{
  ℕ, ◌+◌, ◌-◌, ◌*◌, ◌<◌, ◌≤◌, ◌^◌, ◌≡◌, refl, arith, ◌∙◌, List, [], ◌∷◌, ◌++◌, ltb, false, lt→ltb,
  bit_or, ◌<<◌, Bool-cases, inl, inr, if◌then◌else◌,
}
use tiny_bios.Prelude.Bits.{or_fields}
use tiny_bios.Cmos.{MemoryEntry, add_memory}

abbrev pub total_of : (low_kb high_kb : ℕ) → ℕ
total_of low_kb high_kb = high_kb * 2 ^ 14 + low_kb * 2 ^ 6 + 2 ^ 14

-- A byte belongs to an entry.
abbrev pub Holds : MemoryEntry → ℕ → Type 0
Holds e a = (e.addr ≤ a) × (a < e.addr + e.size)

abbrev pub reserved_entry : MemoryEntry
reserved_entry = record { addr = 0xa0000; size = 0xfffff; type = 3 }

abbrev pub high_entry : ℕ → MemoryEntry
high_entry size = record { addr = 0x100000; size = size; type = 1 }

append_assoc : {A : Type 0} (xs ys zs : List A) → (xs ++ ys) ++ zs ≡ xs ++ (ys ++ zs)
append_assoc [] ys zs = refl
append_assoc (x ∷ xs) ys zs = cc (append_assoc xs ys zs)

not_below : (a b : ℕ) → b ≤ a → ltb a b ≡ false
not_below a b h = ground arith

total_lem :
    (low high : ℕ) → low < 256 → bit_or (high << 14) (low << 6) + 16 * 1024 ≡ total_of low high
total_lem low high h = omega (arith, or_fields 14 high (low * 2 ^ 6) (omega arith))

-- What the two bytes add: one entry below 640 kB, else three.
abbrev pub added : (total : ℕ) → List MemoryEntry
added total =
    if ltb total 0xa0000
    then record { addr = 0; size = total; type = 1 } ∷ []
    else record { addr = 0; size = 0x0ffff; type = 1 }
      ∷ reserved_entry
      ∷ high_entry (total - 0xa0000)
      ∷ []

-- For any two bytes: below 640 kB one entry is added, else three, the reserved one at 640 kB and the
-- high one at 1 MB among them, and never more.
pub add_memory_lem :
    (low high : ℕ) (entries : List MemoryEntry)
    → low < 256
    → high < 256
    → add_memory low high entries ≡ entries ++ added (total_of low high)
unfolding add_memory
add_memory_lem low high entries hl hh =
    rw (total_lem low high hl) (elim (Bool-cases (ltb (total_of low high) 0xa0000)) [
      | inl below ↦ rw below refl
      | inr above ↦ rw above (
          rw (lt→ltb (total_of low high - 0xa0000) (15 * (1024 * 1024)) (omega arith))
            (append_assoc (entries ++ _) _ _ ∙ append_assoc entries _ _))
    ])

-- A high entry that is not empty shares its first byte with the reserved one.
pub high_entry-Holds :
    (total : ℕ)
    → 0xa0000 < total
    → Holds reserved_entry 0x100000 × Holds (high_entry (total - 0xa0000)) 0x100000
high_entry-Holds total above = ((omega arith, omega arith), (omega arith, omega arith))
