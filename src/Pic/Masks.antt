-- ===== src/Pic/Masks.antt =====
-- What `pic_unmask_irq` and `pic_mask_irq` do to the chips' masks.
use tiny_bios.Prelude.{
  ℕ, ◌+◌, ◌-◌, ◌*◌, ◌/◌, ◌<◌, ◌≤◌, ◌%◌, ◌^◌, ◌≡◌, refl, arith, true, false, u8, bit_or, bit_and,
  ◌<<◌, if◌then◌else◌, ap, ◌∙◌, Bool-cases, inl, inr, ◌⊎◌, ◌!=◌, ltb→lt, ◌==◌, ltb, ==_iff,
}
use tiny_bios.Prelude.Bits.{all_below, all_below_sound₂, all_below_sound}
use tiny_bios.Port.{Log, Hardware, inb, outb, iodelay}
use tiny_bios.Port.Triples.{Returns, returns}
use tiny_bios.Pic.{send_data, get_mask, primary_port, secondary_port, pic_unmask_irq, pic_mask_irq}
use tiny_bios.Pic.Chip.{Chip, on_command, data_in_phase, ready, expects_icw2, chip}

-- The mask with the bit of a line off.
abbrev pub without : (mask line : ℕ) → ℕ
without mask line = mask - mask / 2 ^ line % 2 * 2 ^ line

without_table :
    all_below 256 (λ m. all_below 8 (λ k. bit_and m (255 - u8 (1 << (k % 32))) == without m k))
    ≡ true
unfolding all_below
without_table = refl

cleared : (m k : ℕ) → m < 256 → k < 8 → bit_and m (255 - u8 (1 << (k % 32))) ≡ without m k
cleared m k hm hk = (==_iff _ _).0 (all_below_sound₂ 256 8 _ m k without_table hm hk)

abbrev pub IsReady : Chip → Type 0
IsReady c = (c.phase ≡ ready) × (c.mask < 256)

-- A machine whose chip at a command port answers a read of its data port with its mask.
abbrev pub ShowsMask : ℕ → Hardware → Type 0
ShowsMask port hw = (log : Log) → hw log 8 (port + 1) ≡ (chip port log).mask

masked :
    (c : Chip) (m k : ℕ)
    → c.phase ≡ ready
    → c.mask < 256
    → m ≡ c.mask
    → k < 8
    → data_in_phase c.phase (bit_and (u8 m) (255 - u8 (1 << (k % 32)))) c
      ≡ record c { mask = without c.mask k }
masked c m k up byte shown small =
    let same : bit_and (u8 m) (255 - u8 (1 << (k % 32))) ≡ without c.mask k =
      ap (λ t. bit_and t (255 - u8 (1 << (k % 32)))) (omega (arith, shown))
      ∙ cleared c.mask k byte small in
    rw up (rw same refl)

-- Unmasking changes one chip: its mask loses the bit of the line, and it stays as it is elsewhere.
abbrev pub Unmasked : (port other line : ℕ) → Log → Log → Type 0
Unmasked port other line before after =
    (chip port after ≡ record (chip port before) { mask = without (chip port before).mask line })
    × (chip other after ≡ chip other before)

-- A line below 16 on a machine whose chips show their masks of 8 bits, both ready: unmasking
-- returns, takes exactly the line's bit out of the mask of the chip that the line belongs to, and
-- changes nothing else in either chip.
pub pic_unmask_irq-Unmasked :
    (line : ℕ) (hw : Hardware) (log : Log)
    → line < 16
    → ShowsMask primary_port hw
    → ShowsMask secondary_port hw
    → IsReady (chip primary_port log)
    → IsReady (chip secondary_port log)
    → Returns
        (λ u after.
          if ltb line 8
          then Unmasked primary_port secondary_port line log after
          else Unmasked secondary_port primary_port (line - 8) log after)
        (pic_unmask_irq line hw log)
unfolding pic_unmask_irq get_mask send_data chip inb outb iodelay
pic_unmask_irq-Unmasked line hw log small shows shows' up up' = elim (Bool-cases (ltb line 8)) [
  | inl first ↦ rw first (
      returns
        (masked (chip primary_port log) _ line up.0 up.1 (shows log) (ltb→lt line 8 first), refl))
  | inr second ↦ rw second (
      returns (
        masked (chip secondary_port log) _ (line - 8) up'.0 up'.1 (shows' log) (ground arith),
        refl,
      ))
]

bit_four_table : all_below 256 (λ v. u8 (bit_or v (1 << 4)) / 16 % 2 == 1) ≡ true
unfolding all_below
bit_four_table = refl

bit_four : (v k : ℕ) → v < 256 → k ≡ 4 → (u8 (bit_or v (1 << k)) / 16 % 2 == 1) ≡ true
bit_four v k h e =
    rw e (all_below_sound 256 (λ v. u8 (bit_or v (1 << 4)) / 16 % 2 == 1) v bit_four_table h)

on_command-mask :
    (v : ℕ) (c : Chip) → ((on_command v c).mask ≡ c.mask) ⊎ ((on_command v c).phase ≡ expects_icw2)
on_command-mask v c = ground arith

on_command-restarts :
    (v : ℕ) (c : Chip) → (v / 16 % 2 == 1) ≡ true → (on_command v c).phase ≡ expects_icw2
on_command-restarts v c h = rw h refl

-- Masking a line of the second chip, on any machine and in any state, returns without the line's bit
-- in a mask: the second chip keeps its mask or waits for the second word of a new initialisation,
-- which it always does for line 12, and the first chip is as before.
pub pic_mask_irq-second :
    (line : ℕ) (hw : Hardware) (log : Log)
    → 8 ≤ line
    → line < 16
    → Returns
        (λ u after.
          (((chip secondary_port after).mask ≡ (chip secondary_port log).mask)
            ⊎ ((chip secondary_port after).phase ≡ expects_icw2))
          × (line ≡ 12 → (chip secondary_port after).phase ≡ expects_icw2)
          × (chip primary_port after ≡ chip primary_port log))
        (pic_mask_irq line hw log)
unfolding pic_mask_irq get_mask chip inb outb
pic_mask_irq-second line hw log second small =
    let b1 : ltb line 8 ≡ false = ground arith in
    let b2 : (line != 0) ≡ true = ground arith in
    let shift : ℕ = u8 (line + 2 ^ 8 - 8) % 32 in
    let old : ℕ = u8 (hw log 8 (u8 (line + 2 ^ 8 - 8) + 1)) in
    let before = chip secondary_port log in
    rw b1 (
      rw b2 (
        returns (
          on_command-mask (u8 (bit_or old (1 << shift))) before,
          λ e.
              on_command-restarts (u8 (bit_or old (1 << shift))) before
                (bit_four old shift (omega arith) (omega arith)),
          refl,
        )))
