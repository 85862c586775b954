-- ===== src/Pit.antt =====
-- src/drivers/pit/pit.c with src/include/drivers/pit/pit.h: the programmable interval timer.
pub mod Channel
mod Tests
use tiny_bios.Prelude.{ℕ, ◌+◌, ◌*◌, Bool, true, false, if◌then◌else◌}
use tiny_bios.Memory.{Memory}
use tiny_bios.Device.{DeviceStatus, status_initialised}
use tiny_bios.Port.{Cmd, pure, ◌>>=◌, ◌>>◌, inw, outb}
use tiny_bios.Pic.{send_eoi}
use tiny_bios.Idt.{add_interrupt_handler}

abbrev pub channel_0_port : ℕ
channel_0_port = 0x40

abbrev pub channel_1_port : ℕ
channel_1_port = 0x41

abbrev pub channel_2_port : ℕ
channel_2_port = 0x42

abbrev pub command_port : ℕ
command_port = 0x43

pub data BinaryMode : Type 0 where
  binary bcd : BinaryMode

pub data OperatingMode : Type 0 where
  int_on_terminal_count hardware_retriggerable_single_shot rate_generator square_wave_generator
        sw_triggered_strobe hw_triggered_strobe rate_generator_2 square_wave_generator_2 :
      OperatingMode

pub data AccessMode : Type 0 where
  latch_count_value lobyte_only hibyte_only lo_and_hi_byte : AccessMode

pub data ChannelMode : Type 0 where
  channel_0 channel_1 channel_2 read_back : ChannelMode

-- The numbers of the enumerators.
unfoldable pub binary_code : BinaryMode → ℕ
binary_code binary = 0
binary_code bcd = 1

unfoldable pub operating_code : OperatingMode → ℕ
operating_code int_on_terminal_count = 0
operating_code hardware_retriggerable_single_shot = 1
operating_code rate_generator = 2
operating_code square_wave_generator = 3
operating_code sw_triggered_strobe = 4
operating_code hw_triggered_strobe = 5
operating_code rate_generator_2 = 6
operating_code square_wave_generator_2 = 7

unfoldable pub access_code : AccessMode → ℕ
access_code latch_count_value = 0
access_code lobyte_only = 1
access_code hibyte_only = 2
access_code lo_and_hi_byte = 3

unfoldable pub channel_code : ChannelMode → ℕ
channel_code channel_0 = 0
channel_code channel_1 = 1
channel_code channel_2 = 2
channel_code read_back = 3

pub record PitCommand : Type 0 where
  pub binary_mode : BinaryMode
  pub operating_mode : OperatingMode
  pub access_mode : AccessMode
  pub selected_channel : ChannelMode

-- The byte of the bit fields, the first one lowest.
unfoldable pub command_byte : PitCommand → ℕ
command_byte cmd =
    binary_code cmd.binary_mode
    + 2 * operating_code cmd.operating_mode
    + 16 * access_code cmd.access_mode
    + 64 * channel_code cmd.selected_channel

pub record PitReadbackCommand : Type 0 where
  pub reserved_zero : ℕ
  pub readback_timer_channel_0_selected : Bool
  pub readback_timer_channel_1_selected : Bool
  pub readback_timer_channel_2_selected : Bool
  pub status_latching_enabled : Bool
  pub count_latching_enabled : Bool
  pub reserved_one : ℕ

unfoldable pub bit : Bool → ℕ
bit b = if b then 1 else 0

unfoldable pub readback_byte : PitReadbackCommand → ℕ
readback_byte cmd =
    cmd.reserved_zero
    + 2 * bit cmd.readback_timer_channel_0_selected
    + 4 * bit cmd.readback_timer_channel_1_selected
    + 8 * bit cmd.readback_timer_channel_2_selected
    + 16 * bit cmd.status_latching_enabled
    + 32 * bit cmd.count_latching_enabled
    + 64 * cmd.reserved_one

unfoldable pub write_command_raw : ℕ → Cmd Unit
write_command_raw cmd = outb cmd command_port

unfoldable pub write_command : PitCommand → Cmd Unit
write_command cmd = write_command_raw (command_byte cmd)

-- The command of zeros latches the count of channel 0.
unfoldable pub read_count : (channel : ℕ) → Cmd ℕ
read_count channel = do
  write_command (record {
    binary_mode = binary;
    operating_mode = int_on_terminal_count;
    access_mode = latch_count_value;
    selected_channel = channel_0;
  })
  inw channel

unfoldable pub write_readback_command : PitReadbackCommand → Cmd Unit
write_readback_command cmd = write_command_raw (readback_byte cmd)

unfoldable pub pit_int_handler : Cmd Unit
pit_int_handler = send_eoi 0

-- `idt` is the address of the interrupt descriptor table, `handler` the one of `pit_int_handler`.
unfoldable pub pit_init : (idt handler : ℕ) → Memory → Cmd (DeviceStatus × Memory)
pit_init idt handler m = do
  write_command (record {
    binary_mode = binary;
    operating_mode = square_wave_generator;
    access_mode = lo_and_hi_byte;
    selected_channel = channel_0;
  })
  outb 0x00 0x40
  outb 0x10 0x40
  pure (status_initialised, add_interrupt_handler idt 0x20 handler m)
