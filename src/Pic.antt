-- ===== src/Pic.antt =====
-- src/drivers/pic_8259/pic.c with src/include/drivers/pic_8259/pic.h: the interrupt controllers.
pub mod Chip
pub mod Init
pub mod Masks
pub mod Registers
mod Tests
use tiny_bios.Prelude.{
  ℕ, ◌+◌, ◌-◌, ◌*◌, ◌%◌, ◌^◌, bit_and, bit_or, ◌<<◌, ◌>>>◌, ◌!=◌, ltb, leb, u8, u16, if◌then◌else◌,
}
use tiny_bios.Device.{DeviceStatus, status_initialised}
use tiny_bios.Port.{Cmd, pure, ◌>>=◌, ◌>>◌, inb, outb, iodelay}

abbrev pub primary_port : ℕ
primary_port = 0x20

abbrev pub secondary_port : ℕ
secondary_port = 0xa0

-- `pic_icw1`
pub record Icw1 : Type 0 where
  pub icw4_needed : ℕ
  pub cascading : ℕ
  pub iv_size : ℕ
  pub trigger_mode : ℕ
  pub icw_1 : ℕ
  pub pc_system : ℕ

abbrev pub icw1_byte : Icw1 → ℕ
icw1_byte w =
    w.icw4_needed % 2
    + (w.cascading % 2) * 2
    + (w.iv_size % 2) * 4
    + (w.trigger_mode % 2) * 8
    + (w.icw_1 % 2) * 16
    + (w.pc_system % 8) * 32

-- `pic_icw3_secondary`
pub record Icw3Secondary : Type 0 where
  pub primary_int : ℕ
  pub zero_bits : ℕ

abbrev pub icw3_byte : Icw3Secondary → ℕ
icw3_byte w = w.primary_int % 8 + (w.zero_bits % 32) * 8

-- `pic_icw4`
pub record Icw4 : Type 0 where
  pub mode : ℕ
  pub auto_eoi : ℕ
  pub buffered : ℕ
  pub sequential : ℕ
  pub zero_bits : ℕ

abbrev pub icw4_byte : Icw4 → ℕ
icw4_byte w =
    w.mode % 2
    + (w.auto_eoi % 2) * 2
    + (w.buffered % 4) * 4
    + (w.sequential % 2) * 16
    + (w.zero_bits % 8) * 32

-- `pic_ocw3`
pub record Ocw3 : Type 0 where
  pub next : ℕ
  pub nop_b0 : ℕ
  pub poll : ℕ
  pub ident : ℕ
  pub reset_mask : ℕ
  pub nop_b5 : ℕ
  pub zero_bits : ℕ

abbrev pub ocw3_byte : Ocw3 → ℕ
ocw3_byte w =
    w.next % 2
    + (w.nop_b0 % 2) * 2
    + (w.poll % 2) * 4
    + (w.ident % 4) * 8
    + (w.reset_mask % 2) * 32
    + (w.nop_b5 % 2) * 64
    + (w.zero_bits % 2) * 128

-- The words that the file keeps as globals. The device's own data points at them.
pub record Words : Type 0 where
  pub icw1 : Icw1
  pub icw3_primary : ℕ
  pub icw3_secondary : Icw3Secondary
  pub icw4 : Icw4

abbrev pub no_words : Words
no_words = record {
  icw1 = record {
    icw4_needed = 0;
    cascading = 0;
    iv_size = 0;
    trigger_mode = 0;
    icw_1 = 0;
    pc_system = 0;
  };
  icw3_primary = 0;
  icw3_secondary = record { primary_int = 0; zero_bits = 0 };
  icw4 = record { mode = 0; auto_eoi = 0; buffered = 0; sequential = 0; zero_bits = 0 };
}

unfoldable pub send_cmd : ℕ → ℕ → Cmd Unit
send_cmd port cw = do outb cw port; iodelay 50

unfoldable pub send_data : ℕ → ℕ → Cmd Unit
send_data port ow = do outb ow (port + 1); iodelay 50

unfoldable pub get_mask : ℕ → Cmd ℕ
get_mask port = inb (port + 1)

unfoldable pub send_eoi : ℕ → Cmd Unit
send_eoi irq = do if leb 8 irq then outb 0x20 secondary_port else pure tt; outb 0x20 primary_port

-- The initialisation command words, 1 to 4, and the masks.
unfoldable pub send_words : Words → Cmd Unit
send_words w = do
  send_cmd primary_port (icw1_byte w.icw1)
  send_cmd secondary_port (icw1_byte w.icw1)
  send_data primary_port 0x20
  send_data secondary_port 0x28
  send_data primary_port w.icw3_primary
  send_data secondary_port (icw3_byte w.icw3_secondary)
  send_data primary_port (icw4_byte w.icw4)
  send_data secondary_port (icw4_byte w.icw4)
  send_data primary_port (0xff - (1 << 2))
  send_data secondary_port 0xff

unfoldable pub initialised_words : Words → Words
initialised_words w = record {
  icw1 = record w.icw1 { icw4_needed = 1; icw_1 = 1; trigger_mode = 0 };
  icw3_primary = 4;
  icw3_secondary = record w.icw3_secondary { primary_int = 2 };
  icw4 = record w.icw4 { mode = 1 };
}

-- The edge/level control registers.
unfoldable pub set_trigger_bit : Cmd Unit
set_trigger_bit = do
  low ← inb 0x4d0
  high ← inb 0x4d1
  let tbit = bit_or (bit_or low (u16 (high << 8))) (1 << 9)
  outb (u8 tbit) 0x4d0
  outb (u8 (tbit >>> 8)) 0x4d1

unfoldable pub pic_initialize : Words → Cmd (DeviceStatus × Words)
pic_initialize w = do
  let w' = initialised_words w
  send_words w'
  set_trigger_bit
  pure (status_initialised, w')

-- As the C function has it: `line` turns into `line - 8` of a byte, or into 1, before it is used as
-- a port and as the shift. The shift of the processor counts modulo 32.
unfoldable pub pic_mask_irq : ℕ → Cmd Unit
pic_mask_irq line =
    let port = if ltb line 8 then primary_port else secondary_port in
    let line' = if line != 0 then u8 (line + 2 ^ 8 - 8) else (if ltb line 8 then 1 else 0) in
    do v ← get_mask line'; outb (u8 (bit_or v (1 << (line' % 32)))) port

unfoldable pub pic_unmask_irq : ℕ → Cmd Unit
pic_unmask_irq line =
    let port = if ltb line 8 then primary_port else secondary_port in
    let line' = if ltb line 8 then line else line - 8 in
    do v ← get_mask port; send_data port (bit_and v (255 - u8 (1 << (line' % 32))))

unfoldable pub pic_read_irq : Ocw3 → Cmd ℕ
pic_read_irq ocw = do
  send_cmd primary_port (ocw3_byte ocw)
  send_cmd secondary_port (ocw3_byte ocw)
  second ← inb secondary_port
  first ← inb primary_port
  pure (bit_or (u16 (second << 8)) first)

unfoldable pub pic_read_isr : Cmd ℕ
pic_read_isr = pic_read_irq (record {
  next = 0;
  nop_b0 = 1;
  poll = 0;
  ident = 1;
  reset_mask = 0;
  nop_b5 = 0;
  zero_bits = 0;
})

unfoldable pub pic_read_irr : Cmd ℕ
pic_read_irr = pic_read_irq (record {
  next = 1;
  nop_b0 = 1;
  poll = 0;
  ident = 1;
  reset_mask = 0;
  nop_b5 = 0;
  zero_bits = 0;
})
