-- ===== src/Serial/Uart.antt =====
-- What `serial_init_device` does to the documented 16550: its divisor is set through ports 0 and 1
-- while bit 7 of the line control is on.
use tiny_bios.Prelude.{
  ℕ, ◌/◌, ◌%◌, ◌≡◌, refl, arith, ap, [], ◌∷◌, ◌==◌, bit_and, u8, ◌<◌, if◌then◌else◌, Bool, ◌&&◌,
}
use tiny_bios.Prelude.Bits.{and_mask}
use tiny_bios.Device.{status_initialised}
use tiny_bios.Port.{Log, Hardware, wrote8, inb, outb}
use tiny_bios.Port.Triples.{Returns, returns}
use tiny_bios.Serial.{
  SerialDevice, interrupts_disable, dlab_set, dlab_clear, set_baudrate, set_linecontrol,
  init_device,
}

pub record Uart : Type 0 where
  pub line_control : ℕ
  pub divisor_low : ℕ
  pub divisor_high : ℕ
  pub interrupt_enable : ℕ

abbrev pub reset_state : Uart
reset_state = record { line_control = 0; divisor_low = 0; divisor_high = 0; interrupt_enable = 0 }

abbrev pub latched : Uart → Bool
latched u = u.line_control / 128 % 2 == 1

-- A write to one of the ports of the first serial port.
abbrev pub on_write : (v port : ℕ) → Uart → Uart
on_write v port u =
    if port == 0x3fb
    then record u { line_control = v }
    else (if (port == 0x3f8) && latched u
        then record u { divisor_low = v }
        else (if port == 0x3f9
            then (if latched u
                then record u { divisor_high = v }
                else record u { interrupt_enable = v })
            else u))

-- The chip after the writes of a log.
unfoldable pub uart : Log → Uart
uart [] = reset_state
uart (wrote8 v port ∷ log) = on_write v port (uart log)
uart (_ ∷ log) = uart log

elsewhere : (v port : ℕ) (u : Uart) → port < 128 → on_write v port u ≡ u
elsewhere v port u h = ground arith

low_bits : (v : ℕ) → bit_and v 127 < 128
low_bits v = omega (arith, and_mask 7 v)

-- From any state and on any machine, the initialisation returns success and records a divisor of 12,
-- but leaves the chip's divisor and its interrupt enable register as they were: only the line
-- control changes, to 3.
pub init_device-unset :
    (sdev : SerialDevice) (hw : Hardware) (log : Log)
    → Returns
        (λ (status, sdev') after.
          (status ≡ status_initialised)
          × (sdev'.baudrate_divisor ≡ 12)
          × (uart after ≡ record (uart log) { line_control = 3 }))
        (init_device sdev hw log)
unfolding init_device interrupts_disable set_baudrate set_linecontrol dlab_set dlab_clear uart inb
    outb
init_device-unset sdev hw log =
    let before : Log = wrote8 0xf9 0 ∷ wrote8 0xf8 0x0c ∷ wrote8 0xfa 0x80 ∷ wrote8 0xf9 0 ∷ log in
    let answer : ℕ = u8 (hw before 8 0x3fa) in
    returns (
      refl,
      refl,
      ap (λ (u : Uart). record u { line_control = 3 })
          (elsewhere 250 (bit_and answer 127) (uart log) (low_bits answer)),
    )
