-- ===== src/Idt/Unhandled.antt =====
-- src/interrupts/default_int_handler.c: the handler of every interrupt that has no other.
use tiny_bios.Prelude.{[], ◌∷◌}
use tiny_bios.Port.{Cmd, ◌>>=◌, panicf}
use tiny_bios.Pic.{pic_read_isr, pic_read_irr}

unfoldable pub default_int_handler : Cmd Unit
default_int_handler = do
  isr ← pic_read_isr
  irr ← pic_read_irr
  panicf "Unhandled interrupt, irs: %04x, irr: %04x\n" (isr ∷ irr ∷ [])
