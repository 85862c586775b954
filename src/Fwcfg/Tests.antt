-- ===== src/Fwcfg/Tests.antt =====
-- A device whose item 32 has two entries: memory from 0 on, and a reserved range.
use tiny_bios.Prelude.{
  ℕ, zero, suc, ◌+◌, ◌-◌, ◌*◌, ◌/◌, ◌%◌, ◌<◌, ◌≡◌, refl, ap, ◌∙◌, arith, true, false, some, List,
  [], ◌∷◌, ◌++◌, length, get_or, ◌!=◌, ◌==◌, if◌then◌else◌, Bool-cases, inl, inr,
}
use tiny_bios.Memory.{Memory, load16, load32, load64}
use tiny_bios.Port.{Log, Hardware, wrote16, read8}
use tiny_bios.Port.Triples.{Returns}
use tiny_bios.Fwcfg.{load_entry, memory_init}
use tiny_bios.Fwcfg.Stream.{selected, offset, IsFwcfg}
use tiny_bios.Fwcfg.MemoryMap.{all_regions}
use tiny_bios.Fwcfg.Directory.{Named, HasName, entry_at}
use tiny_bios.Fwcfg.Init.{memory_init-Returns}

-- The size 0x8000000 is in the low dword, the type behind the size.
abbrev items : ℕ → ℕ → ℕ
items item at =
    if at == 11
    then 8
    else if at == 16
    then 1
    else if at == 20
    then 1
    else if at == 28
    then 1
    else if at == 36
    then 2
    else 0

five_regions : length (all_regions (items 32) 2 0) ≡ 5
unfolding all_regions load_entry load64 load32
five_regions = refl

-- The byte swaps, and a device with its signature, a directory of one file, `etc/e820`, and that file
-- as item 32.
abbrev swap16 : ℕ → ℕ
swap16 x = x % 256 * 256 + x / 256 % 256

abbrev swap32 : ℕ → ℕ
swap32 x = (x % 256 * 256 + x / 256 % 256) * 65536 + x / 65536 % 256 * 256 + x / 16777216 % 256

abbrev file_name : List ℕ
file_name = 0x65 ∷ 0x74 ∷ 0x63 ∷ 0x2f ∷ 0x65 ∷ 0x38 ∷ 0x32 ∷ 0x30 ∷ []

abbrev count_and_entry : List ℕ
count_and_entry = 0 ∷ 0 ∷ 0 ∷ 1 ∷ 0 ∷ 0 ∷ 0 ∷ 40 ∷ 0 ∷ 32 ∷ 0 ∷ 0 ∷ []

abbrev qemu : ℕ → ℕ → ℕ
qemu item at =
    if item == 0
    then get_or (0x51 ∷ 0x45 ∷ 0x4d ∷ 0x55 ∷ []) at 0
    else if item == 25
    then get_or (count_and_entry ++ file_name) at 0
    else if item == 32
    then items 32 at
    else 0

abbrev AllBytes : List ℕ → Type 0
AllBytes [] = Unit
AllBytes (c ∷ cs) = (c < 256) × AllBytes cs

get_or-lt : (cs : List ℕ) (i : ℕ) → AllBytes cs → get_or cs i 0 < 256
get_or-lt [] i p = omega arith
get_or-lt (c ∷ cs) zero p = p.0
get_or-lt (c ∷ cs) (suc i) p = get_or-lt cs i p.1

items-lt : (at : ℕ) → items 32 at < 256
items-lt at = ground arith

qemu-lt : (item at : ℕ) → qemu item at < 256
qemu-lt item at = elim (Bool-cases (item == 0)) [
  | inl e ↦ rw e (get_or-lt (0x51 ∷ 0x45 ∷ 0x4d ∷ 0x55 ∷ []) at (omega arith))
  | inr e ↦ rw e (elim (Bool-cases (item == 25)) [
    | inl e' ↦ rw e' (get_or-lt (count_and_entry ++ file_name) at (omega arith))
    | inr e' ↦
        rw e' (elim (Bool-cases (item == 32)) [
          | inl f ↦ rw f (items-lt at)
          | inr f ↦ rw f (omega arith)
        ])
  ])
]

abbrev device : Hardware
device log bits port = qemu (selected log) (offset log)

device-IsFwcfg : IsFwcfg qemu device
device-IsFwcfg = record { serves = λ log. refl; bytes = qemu-lt }

get_or-append : (xs ys : List ℕ) (i : ℕ) → get_or (xs ++ ys) (length xs + i) 0 ≡ get_or ys i 0
get_or-append [] ys i = ap (λ j. get_or ys j 0) (omega arith)
get_or-append (x ∷ xs) ys i =
    ap (λ j. get_or (x ∷ (xs ++ ys)) j 0) {y = suc (length xs + i)} (omega arith)
    ∙ get_or-append xs ys i

-- The name that is looked for is at 0xa000.
abbrev memory : Memory
memory x = get_or file_name (x - 0xa000) 0

name_held : HasName memory 0xa000 (λ i. get_or file_name i 0)
name_held i lt = ap (λ j. get_or file_name j 0) (omega arith)

name_found : Named (qemu 25) (entry_at 0 + 8) (λ i. get_or file_name i 0)
name_found i lt before = get_or-append count_and_entry file_name i

-- The same device with its data at the documented port.
abbrev taken : Log → ℕ
taken [] = 0
taken (wrote16 v port ∷ log) = if port == 0x510 then 0 else taken log
taken (read8 v port ∷ log) = if port == 0x511 then taken log + 1 else taken log
taken (_ ∷ log) = taken log

abbrev documented : Hardware
documented log bits port = if port == 0x511 then qemu (selected log) (taken log) else 0xff

memory_init-Returns_example :
    Returns
      (λ r after.
        r
        ≡ some (
          length ([] ++ all_regions (qemu (swap16 (load16 (qemu 25) (entry_at 0 + 4)))) 2 0) != 0,
          [] ++ all_regions (qemu (swap16 (load16 (qemu 25) (entry_at 0 + 4)))) 2 0,
        ))
      (memory_init (λ _. true) 0x7000 swap16 swap32 3 (some 0x9000) 0xa000 [] memory device [])
    × Returns
        (λ r after. r ≡ some (false, []))
        (memory_init
          (λ _. true)
          0x7000
          swap16
          swap32
          3
          (some 0x9000)
          0xa000
          []
          memory
          documented
          [])
unfolding load16 load32
memory_init-Returns_example =
    memory_init-Returns swap16 swap32 (λ x. omega arith) (λ x. omega arith) qemu device
      device-IsFwcfg 0x7000 0x9000 0xa000 (λ i. get_or file_name i 0) (omega arith) (omega arith)
      (λ _. true) 0 2 3 [] memory [] (λ _. refl) refl name_held (omega arith)
      (λ j lt. absurd (omega arith)) name_found refl (omega arith) (omega arith)
      (omega (arith, five_regions)) documented (λ past. refl)
