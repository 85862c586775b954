-- ===== src/Pic/Init.antt =====
-- What `pic_initialize` makes of the two chips.
use tiny_bios.Prelude.{ℕ, ◌≡◌, refl}
use tiny_bios.Device.{status_initialised}
use tiny_bios.Port.{Log, Hardware, inb, outb, iodelay}
use tiny_bios.Port.Triples.{Returns, returns}
use tiny_bios.Pic.{
  no_words, initialised_words, send_words, set_trigger_bit, send_cmd, send_data, primary_port,
  secondary_port, pic_initialize,
}
use tiny_bios.Pic.Chip.{Chip, ready, chip}

-- The chip has gone through its initialisation, with these settings.
pub record IsUp (base cascade mask : ℕ) (c : Chip) : Type 0 where
  pub is_ready : c.phase ≡ ready
  pub based : c.vector_base ≡ base
  pub cascaded : c.cascade ≡ cascade
  pub for_8086 : c.mode ≡ 1
  pub masked : c.mask ≡ mask

-- Whatever was done before, on any machine: the initialisation returns, and leaves both chips ready
-- in 8086 mode, the first with vectors from 0x20, the second at its line 2 and every other line
-- masked, the second with vectors from 0x28, at line 2 of the first and with every line masked.
pub pic_initialize-IsUp :
    (hw : Hardware) (log : Log)
    → Returns
        (λ (status, words) after.
          (status ≡ status_initialised)
          × IsUp 0x20 4 0xfb (chip primary_port after)
          × IsUp 0x28 2 0xff (chip secondary_port after))
        (pic_initialize no_words hw log)
unfolding pic_initialize initialised_words send_words set_trigger_bit send_cmd send_data chip outb
    inb iodelay
pic_initialize-IsUp hw log = returns (
  refl,
  record { is_ready = refl; based = refl; cascaded = refl; for_8086 = refl; masked = refl },
  record { is_ready = refl; based = refl; cascaded = refl; for_8086 = refl; masked = refl },
)
