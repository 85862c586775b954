-- ===== src/Pic/Tests.antt =====
-- The theorems on the interrupt controllers at a simulated pair of chips.
use tiny_bios.Prelude.{ℕ, ◌+◌, ◌-◌, ◌*◌, ◌≡◌, ◌⊎◌, refl, arith, ltb, ◌==◌, if◌then◌else◌, [], ◌∷◌}
use tiny_bios.Device.{status_initialised}
use tiny_bios.Port.{Log, Hardware, wrote8}
use tiny_bios.Port.Triples.{Returns}
use tiny_bios.Pic.{
  no_words, pic_initialize, pic_unmask_irq, pic_mask_irq, pic_read_isr, pic_read_irr, primary_port,
  secondary_port,
}
use tiny_bios.Pic.Chip.{chip, expects_icw2}
use tiny_bios.Pic.Init.{IsUp, pic_initialize-IsUp}
use tiny_bios.Pic.Masks.{Unmasked, pic_unmask_irq-Unmasked, pic_mask_irq-second}
use tiny_bios.Pic.Registers.{Holds, read_irq-registers}

abbrev idle : Hardware
idle log width port = 0

-- What the initialisation sends, newest first.
abbrev brought_up : Log
brought_up =
    wrote8 0xff 0xa1
    ∷ wrote8 0xfb 0x21
    ∷ wrote8 1 0xa1
    ∷ wrote8 1 0x21
    ∷ wrote8 2 0xa1
    ∷ wrote8 4 0x21
    ∷ wrote8 0x28 0xa1
    ∷ wrote8 0x20 0x21
    ∷ wrote8 0x11 0xa0
    ∷ wrote8 0x11 0x20
    ∷ []

abbrev chips : Hardware
chips log width port =
    if port == 0x21
    then (chip 0x20 log).mask
    else (if port == 0xa1 then (chip 0xa0 log).mask else 0)

abbrev in_service : ℕ → ℕ
in_service port = if port == 0x20 then 1 else 2

abbrev requested : ℕ → ℕ
requested port = if port == 0x20 then 4 else 8

abbrev registers : Hardware
registers log width port = if (chip port log).reads_isr then in_service port else requested port

registers-Holds : Holds in_service requested registers
registers-Holds = record {
  isr_small = λ port. ground arith;
  irr_small = λ port. ground arith;
  answers_primary = λ log. refl;
  answers_secondary = λ log. refl;
}

pic_initialize-IsUp_example :
    Returns
      (λ (status, words) after.
        (status ≡ status_initialised)
        × IsUp 0x20 4 0xfb (chip primary_port after)
        × IsUp 0x28 2 0xff (chip secondary_port after))
      (pic_initialize no_words idle [])
pic_initialize-IsUp_example = pic_initialize-IsUp idle []

pic_unmask_irq-Unmasked_example :
    Returns
      (λ u after.
        if ltb 12 8
        then Unmasked primary_port secondary_port 12 brought_up after
        else Unmasked secondary_port primary_port (12 - 8) brought_up after)
      (pic_unmask_irq 12 chips brought_up)
unfolding chip
pic_unmask_irq-Unmasked_example =
    pic_unmask_irq-Unmasked 12 chips brought_up (omega arith) (λ log. refl) (λ log. refl)
      (refl, omega arith) (refl, omega arith)

pic_mask_irq-second_example :
    Returns
      (λ u after.
        (((chip secondary_port after).mask ≡ (chip secondary_port brought_up).mask)
          ⊎ ((chip secondary_port after).phase ≡ expects_icw2))
        × (◌≡◌ {A = ℕ} 12 12 → (chip secondary_port after).phase ≡ expects_icw2)
        × (chip primary_port after ≡ chip primary_port brought_up))
      (pic_mask_irq 12 chips brought_up)
pic_mask_irq-second_example = pic_mask_irq-second 12 chips brought_up (omega arith) (omega arith)

read_irq-registers_example :
    Returns (λ v after. v ≡ 8 * 256 + 4) (pic_read_isr registers brought_up)
    × Returns (λ v after. v ≡ 2 * 256 + 1) (pic_read_irr registers brought_up)
read_irq-registers_example =
    read_irq-registers in_service requested registers brought_up registers-Holds
