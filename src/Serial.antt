-- ===== src/Serial.antt =====
-- src/drivers/serial/serial.c with src/include/drivers/serial/serial.h: the serial port.
pub mod Transmit
pub mod Uart
use tiny_bios.Prelude.{
  ℕ, zero, suc, ◌+◌, ◌/◌, ◌%◌, ◌^◌, bit_and, Bool, true, false, List, [], ◌∷◌, Option, none, some,
  ◌==◌, ◌!=◌, u8, u16, ◌>>>◌, if◌then◌else◌,
}
use tiny_bios.Device.{DeviceStatus, status_initialised}
use tiny_bios.Port.{Cmd, pure, ◌>>=◌, ◌>>◌, inb, outb, blogf, no_rounds_left}
use tiny_bios.Startup.{Device}

abbrev pub com_primary : ℕ
com_primary = 0x3f8

abbrev pub default_brd : ℕ
default_brd = 0x0c

abbrev pub default_line_ctl : ℕ
default_line_ctl = 0x03

-- `serial_uart_device`; the line control is never written.
pub record SerialDevice : Type 0 where
  pub base_port : ℕ
  pub baudrate_divisor : ℕ
  pub line_control : ℕ
  pub fifo_control : ℕ

unfoldable pub get_line_status : ℕ → Cmd ℕ
get_line_status port = inb (port + 5)

-- The arguments of `outb` are the value and the port, in this order; a value is cut to 8 bits.
unfoldable pub interrupts_disable : ℕ → Cmd Unit
interrupts_disable port = outb (u8 (port + 1)) 0

-- As the one that disables them.
unfoldable pub interrupts_enable : ℕ → Cmd Unit
interrupts_enable port = outb (u8 (port + 1)) 0

unfoldable pub get_modem_status : ℕ → Cmd ℕ
get_modem_status port = inb (port + 6)

unfoldable pub dlab_set : ℕ → Cmd Unit
dlab_set port = outb (u8 (port + 2)) 0x80

unfoldable pub dlab_clear : ℕ → Cmd Unit
dlab_clear port = do stat ← inb (port + 2); outb (u8 (port + 2)) (bit_and stat 0x7f)

unfoldable pub set_baudrate : ℕ → ℕ → Cmd Unit
set_baudrate port brd = do
  dlab_set port
  outb (u8 port) (brd % 2 ^ 8)
  outb (u8 (port + 1)) ((brd >>> 8) % 2 ^ 8)
  dlab_clear port

unfoldable pub set_linecontrol : ℕ → ℕ → Cmd Unit
set_linecontrol port lcr = outb lcr (port + 3)

-- A byte through the loop-back mode, which stays on.
unfoldable pub device_is_faulty : ℕ → Cmd Bool
device_is_faulty port = do
  outb 0x1e (port + 4)
  outb 0xae port
  back ← inb port
  pure (back != 0xae)

-- The name is printed by itself. For a divisor of 0 the processor's division traps.
unfoldable pub print_info : Device SerialDevice → Option (Cmd Unit)
print_info dev =
    let divisor = dev.device_data.baudrate_divisor in
    if divisor == 0
    then none
    else some (do
      blogf dev.device_name []
      blogf "%s: %04x / %04x baud\n" (dev.device_data.base_port ∷ 115200 / divisor ∷ []))

unfoldable pub init_device : SerialDevice → Cmd (DeviceStatus × SerialDevice)
init_device sdev = do
  interrupts_disable com_primary
  set_baudrate com_primary default_brd
  set_linecontrol com_primary default_line_ctl
  outb 0x01 (com_primary + 2)
  outb 0x03 (com_primary + 4)
  pure (
    status_initialised,
    record sdev { base_port = com_primary; baudrate_divisor = default_brd; fifo_control = 0x01 },
  )

-- Whether the line was not ready in so many reads.
unfoldable pub wait_loop : ℕ → ℕ → Cmd Bool
wait_loop zero port = pure true
wait_loop (suc left) port =
    let rest = wait_loop left port in
    do stat ← get_line_status port; if bit_and stat 0x20 != 0 then pure false else rest

unfoldable pub wait_for_tx_empty : ℕ → Cmd Bool
wait_for_tx_empty port = wait_loop 50000 port

-- The empty `do` loop around it, which has no bound of its own: on fuel.
unfoldable pub wait_until_empty : ℕ → ℕ → Cmd Unit
wait_until_empty zero port = no_rounds_left
wait_until_empty (suc fuel) port =
    let rest = wait_until_empty fuel port in
    do timeout ← wait_for_tx_empty port; if timeout then rest else pure tt

unfoldable pub tx_character : ℕ → ℕ → ℕ → Cmd Unit
tx_character fuel port c = do
  wait_until_empty fuel port
  (if c == 0x0a then (do outb 0x0d port; wait_until_empty fuel port) else pure tt)
  outb c port

-- The result is the number of characters of the message.
unfoldable pub serial_tx : ℕ → ℕ → List ℕ → Cmd ℕ
serial_tx fuel port [] = pure 0
serial_tx fuel port (c ∷ cs) = do tx_character fuel port c; n ← serial_tx fuel port cs; pure (n + 1)

-- The bytes that are received, so many of them.
unfoldable pub serial_rx : ℕ → ℕ → (size : ℕ) → Cmd (List ℕ)
serial_rx fuel port zero = pure []
serial_rx fuel port (suc size) = do
  wait_until_empty fuel port
  c ← inb port
  cs ← serial_rx fuel port size
  pure (c ∷ cs)
