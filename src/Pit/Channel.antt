-- ===== src/Pit/Channel.antt =====
-- Channel 0 of the documented 8254: what its state is after the writes of a log.
use tiny_bios.Prelude.{
  ℕ, ◌+◌, ◌*◌, ◌%◌, ◌/◌, ◌<◌, ◌^◌, ◌≡◌, refl, Option, none, some, Bool, false, [], ◌∷◌, ◌==◌,
  if◌then◌else◌,
}
use tiny_bios.Memory.{Memory}
use tiny_bios.Device.{status_initialised}
use tiny_bios.Port.{Log, Hardware, wrote8, outb}
use tiny_bios.Port.Triples.{Returns, returns}
use tiny_bios.Pit.{
  binary_code, operating_code, access_code, channel_code, command_byte, write_command_raw,
  write_command, pit_init,
}
use tiny_bios.Idt.Table.{IsTable, add_interrupt_handler-IsTable}

pub record Channel : Type 0 where
  pub counts_in_bcd : Bool
  pub mode : ℕ
  pub access : ℕ
  -- the low byte of a count, before its high byte is written
  pub low_byte : Option ℕ
  -- what the channel counts down from
  pub divisor : Option ℕ

abbrev pub power_on : Channel
power_on = record { counts_in_bcd = false; mode = 0; access = 0; low_byte = none; divisor = none }

-- A command byte: bits 7 and 6 select the channel, an access of 0 latches the count and sets up
-- nothing.
abbrev pub on_command : ℕ → Channel → Channel
on_command v c =
    if v / 64 % 4 == 0
    then (if v / 16 % 4 == 0 then c else record {
      counts_in_bcd = v % 2 == 1;
      mode = v / 2 % 8;
      access = v / 16 % 4;
      low_byte = none;
      divisor = none;
    })
    else c

-- A divisor of 0 stands for 65536.
abbrev pub count_from : ℕ → ℕ
count_from n = if n == 0 then 65536 else n

abbrev pub on_high : Option ℕ → ℕ → Channel → Channel
on_high none v c = record c { low_byte = some v }
on_high (some low) v c = record c { low_byte = none; divisor = some (count_from (low + 256 * v)) }

abbrev pub on_data : ℕ → Channel → Channel
on_data v c =
    if c.access == 1
    then record c { divisor = some (count_from v) }
    else if c.access == 2
    then record c { divisor = some (count_from (256 * v)) }
    else on_high c.low_byte v c

abbrev pub on_write : ℕ → ℕ → Channel → Channel
on_write v port c = if port == 0x43 then on_command v c else if port == 0x40 then on_data v c else c

unfoldable pub channel_after : Log → Channel
channel_after [] = power_on
channel_after (wrote8 v port ∷ log) = on_write v port (channel_after log)
channel_after (_ ∷ log) = channel_after log

-- `pit_init` returns, on any machine and after any calls: channel 0 is then a square wave generator that counts down
-- from 4096, and in a table of handlers, vector 0x20 has the timer's handler and the others are as before.
pub pit_init-Returns :
    (idt handler : ℕ) (m : Memory) (handlers : ℕ → ℕ) (hw : Hardware) (log : Log)
    → handler < 2 ^ 64
    → IsTable m idt handlers
    → Returns
        (λ r after.
          (r.0 ≡ status_initialised)
          × (channel_after after ≡ record {
            counts_in_bcd = false;
            mode = 3;
            access = 3;
            low_byte = none;
            divisor = some 4096;
          })
          × IsTable (r.1) idt (λ v. if 0x20 == v then handler else handlers v))
        (pit_init idt handler m hw log)
unfolding pit_init write_command write_command_raw command_byte binary_code operating_code
    access_code channel_code outb channel_after
pit_init-Returns idt handler m handlers hw log small t =
    returns (refl, refl, add_interrupt_handler-IsTable idt handler small 0x20 m handlers t)
