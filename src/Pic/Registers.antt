-- ===== src/Pic/Registers.antt =====
-- Which of the chips' registers `pic_read_isr` and `pic_read_irr` give.
use tiny_bios.Prelude.{ℕ, ◌+◌, ◌*◌, ◌<◌, ◌≡◌, arith, u8, u16, bit_or, ◌<<◌, if◌then◌else◌}
use tiny_bios.Prelude.Bits.{or_fields}
use tiny_bios.Port.{Log, Hardware, inb, outb, iodelay}
use tiny_bios.Port.Triples.{Returns, returns}
use tiny_bios.Pic.{send_cmd, primary_port, secondary_port, pic_read_irq, pic_read_isr, pic_read_irr}
use tiny_bios.Pic.Chip.{chip}

-- A machine whose chips hold these registers, and answer a read of a command port with the one that
-- the last third operation word selected.
pub record Holds (isr irr : ℕ → ℕ) (hw : Hardware) : Type 0 where
  pub isr_small : (port : ℕ) → isr port < 256
  pub irr_small : (port : ℕ) → irr port < 256
  pub answers_primary :
      (log : Log)
      → hw log 8 primary_port
        ≡ (if (chip primary_port log).reads_isr then isr primary_port else irr primary_port)
  pub answers_secondary :
      (log : Log)
      → hw log 8 secondary_port
        ≡ (if (chip secondary_port log).reads_isr then isr secondary_port else irr secondary_port)

joined :
    (a b x y : ℕ)
    → x < 256
    → y < 256
    → a ≡ x
    → b ≡ y
    → bit_or (u16 (u8 a << 8)) (u8 b) ≡ x * 256 + y
joined a b x y hx hy p q = ground (arith, or_fields 8 x y)

-- On the documented chips, the function for the in-service registers gives the request registers,
-- and the function for the request registers gives the in-service ones: the second chip's in the
-- high byte.
pub read_irq-registers :
    (isr irr : ℕ → ℕ) (hw : Hardware) (log : Log)
    → Holds isr irr hw
    → Returns (λ v after. v ≡ irr secondary_port * 256 + irr primary_port) (pic_read_isr hw log)
      × Returns (λ v after. v ≡ isr secondary_port * 256 + isr primary_port) (pic_read_irr hw log)
unfolding pic_read_isr pic_read_irr pic_read_irq send_cmd chip inb outb iodelay
read_irq-registers isr irr hw log h = (
  returns (
      joined _ _ _ _ (h.irr_small secondary_port) (h.irr_small primary_port) (h.answers_secondary _)
        (h.answers_primary _)),
  returns (
      joined _ _ _ _ (h.isr_small secondary_port) (h.isr_small primary_port) (h.answers_secondary _)
        (h.answers_primary _)),
)
