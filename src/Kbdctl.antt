-- ===== src/Kbdctl.antt =====
-- src/drivers/kbdctl/8042.c with src/include/drivers/kbdctl/8042.h: the keyboard controller.
pub mod Config
pub mod Handshake
pub mod Session
mod Tests
use tiny_bios.Prelude.{
  ℕ, zero, suc, ◌+◌, ◌-◌, bit_and, bit_or, ◌<<◌, Bool, true, false, not, [], ◌∷◌, ◌==◌, ◌!=◌, u8,
  if◌then◌else◌,
}
use tiny_bios.Device.{DeviceStatus, status_unknown, status_faulty, status_initialised}
use tiny_bios.Port.{Cmd, pure, ◌>>=◌, ◌>>◌, inb, outb, blogf, panic}

abbrev pub data_port : ℕ
data_port = 0x60

-- The status is read from the port that commands are written to.
abbrev pub stat_port : ℕ
stat_port = 0x64

abbrev pub stat_out_buf : ℕ
stat_out_buf = 0x01

abbrev pub stat_in_buf : ℕ
stat_in_buf = 0x02

-- `ps2_8042_status`
pub record Ps2Status : Type 0 where
  pub dual_channel : Bool
  pub current_configuration : ℕ
  pub devices_initialised : ℕ
  pub a20line_enabled : Bool

abbrev pub rounds : ℕ
rounds = 5000

ready_loop : ℕ → (mask waitfor : ℕ) → Cmd Bool
ready_loop zero mask waitfor = pure false
ready_loop (suc left) mask waitfor =
    let rest = ready_loop left mask waitfor in
    do stat ← inb stat_port; if bit_and stat mask == waitfor then pure true else rest

pub ctrl_rdy : ℕ → Cmd Bool
ctrl_rdy waitfor = ready_loop rounds (if waitfor != 0 then waitfor else stat_in_buf) waitfor

pub send_cmd : ℕ → Cmd Bool
send_cmd v = do ready ← ctrl_rdy 0; if not ready then pure false else do outb v stat_port; pure true

pub recv_data_poll : Cmd ℕ
recv_data_poll = do
  ready ← ctrl_rdy stat_out_buf
  if not ready then (do blogf "kbdctl_recv_data_poll timeout\n" []; pure 0xff) else inb data_port

pub send_data_poll : ℕ → Cmd Bool
send_data_poll v = do
  ready ← ctrl_rdy 0
  if not ready then pure false else do outb v data_port; pure true

pub disable_ports : Cmd ℕ
disable_ports = do
  first ← send_cmd 0xad
  second ← send_cmd 0xa7
  pure (bit_or (if first then 0 else 1) (if second then 0 else 2))

pub read_config : Cmd ℕ
read_config = do sent ← send_cmd 0x20; if not sent then pure 0xff else recv_data_poll

pub write_config : ℕ → Cmd Bool
write_config config_byte = do
  sent ← send_cmd 0x60
  if not sent then pure false else do
    written ← send_data_poll config_byte
    if not written then pure false else do t ← read_config; pure (t == config_byte)

pub reset_now : Cmd Bool
reset_now = do
  sent ← send_cmd 0xff
  if not sent then pure false else do answer ← recv_data_poll; pure (answer == 0xfa)

pub reset_device : ℕ → Cmd Bool
reset_device which =
    if which == 1
    then (do told ← send_cmd 0xd4; if not told then pure false else reset_now)
    else reset_now

pub enable_a20line : Cmd Bool
enable_a20line = do sent ← send_cmd 0xd1; if not sent then pure false else send_data_poll 0xdf

pub do_self_test : Cmd Bool
do_self_test = do
  sent ← send_cmd 0xaa
  if not sent then pure false else do stat ← recv_data_poll; pure (stat == 0x55)

pub test_device : ℕ → Cmd ℕ
test_device dev_cmd = do
  sent ← send_cmd dev_cmd
  if not sent then pure 0xff else do
    stat ← recv_data_poll
    (if stat != 0 then blogf "PS/2 Device test failed: %x\n" (stat ∷ []) else pure tt)
    pure stat

-- The configuration that is written: interrupts and translation off, the system flag on.
pub default_config : ℕ → ℕ
default_config initial = bit_or (bit_and (bit_and initial 0xbc) (255 - bit_or 0x01 0x02)) (1 << 2)

-- `keyboard_controller_status` comes in and goes out: the device structure is not used.
pub finish_init : Ps2Status → (initial new : ℕ) → Cmd (DeviceStatus × Ps2Status)
finish_init status initial new = do
  enabled ← enable_a20line
  pure (
    status_initialised,
    record status {
      dual_channel = if bit_and initial 0x20 != 0 then true else status.dual_channel;
      a20line_enabled = enabled;
      current_configuration = new;
    },
  )

pub roll_back : Ps2Status → ℕ → Cmd (DeviceStatus × Ps2Status)
roll_back status initial = do
  restored ← write_config initial
  if not restored
      then panic
          "8042/keyboard-controller became unresponsive, can't rollback to known-good configuration!\n"
      else pure (status_faulty, status)

pub configure : Ps2Status → (initial new : ℕ) → Cmd (DeviceStatus × Ps2Status)
configure status initial new = do
  written ← write_config new
  if not written then pure (status_faulty, status) else do
    passed ← do_self_test
    if passed then finish_init status initial new else roll_back status initial

pub set_default_init : Ps2Status → Cmd (DeviceStatus × Ps2Status)
set_default_init status = do
  initial ← read_config
  if initial == 0xff
      then (do blogf "Failed to get initial config\n" []; pure (status_unknown, status))
      else configure status initial (default_config initial)

pub enable_second : Cmd ℕ
enable_second = do
  sent ← send_cmd 0xa8
  if not sent then pure 1 else do
    conf ← read_config
    _ ← write_config (bit_or conf 0x02)
    result ← test_device 0xa9
    pure (if result == 0 then 2 else 1)

-- `stat` is the device's own data.
pub enable_devices : Ps2Status → Cmd (ℕ × Ps2Status)
enable_devices stat = do
  sent ← send_cmd 0xae
  if not sent then pure (0, stat) else do
    result ← test_device 0xab
    if result != 0 then pure (0, stat) else do
      conf ← read_config
      _ ← write_config (bit_or conf 0x01)
      let stat' : Ps2Status = record stat { devices_initialised = stat.devices_initialised + 1 }
      if not stat.dual_channel
          then pure (1, stat')
          else do count ← enable_second; pure (count, stat')
