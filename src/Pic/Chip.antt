-- ===== src/Pic/Chip.antt =====
-- The documented 8259, as far as the driver uses it: what its state is after the writes of a log.
use tiny_bios.Prelude.{ℕ, ◌%◌, ◌/◌, ◌+◌, Bool, true, false, [], ◌∷◌, ◌==◌, if◌then◌else◌}
use tiny_bios.Port.{Log, wrote8}

-- What the chip takes the next write to its data port for.
pub data Phase : Type 0 where
  unset expects_icw2 expects_icw3 expects_icw4 ready : Phase

pub record Chip : Type 0 where
  pub phase : Phase
  pub wants_icw4 : Bool
  pub single : Bool
  pub vector_base : ℕ
  pub cascade : ℕ
  pub mode : ℕ
  pub mask : ℕ
  -- a read of the command port gives the in-service register, not the request register
  pub reads_isr : Bool

abbrev pub power_on : Chip
power_on = record {
  phase = unset;
  wants_icw4 = false;
  single = false;
  vector_base = 0;
  cascade = 0;
  mode = 0;
  mask = 0;
  reads_isr = false;
}

-- A write to the command port: the first word of an initialisation if bit 4 is on, else the third
-- operation word if bit 3 is, of which bit 1 says that bit 0 selects a register.
abbrev pub on_command : ℕ → Chip → Chip
on_command v c =
    if v / 16 % 2 == 1
    then record c {
      phase = expects_icw2;
      wants_icw4 = v % 2 == 1;
      single = v / 2 % 2 == 1;
      mask = 0;
      reads_isr = false;
    }
    else (if v / 8 % 4 == 1
        then (if v / 2 % 2 == 1 then record c { reads_isr = v % 2 == 1 } else c)
        else c)

abbrev pub after_icw3 : Bool → Phase
after_icw3 true = expects_icw4
after_icw3 false = ready

abbrev pub data_in_phase : Phase → ℕ → Chip → Chip
data_in_phase unset v c = c
data_in_phase expects_icw2 v c = record c {
  vector_base = v;
  phase = if c.single then after_icw3 c.wants_icw4 else expects_icw3;
}
data_in_phase expects_icw3 v c = record c { cascade = v; phase = after_icw3 c.wants_icw4 }
data_in_phase expects_icw4 v c = record c { mode = v; phase = ready }
data_in_phase ready v c = record c { mask = v }

-- The chip at a command port, after the writes of a log.
unfoldable pub chip : ℕ → Log → Chip
chip port [] = power_on
chip port (wrote8 v at ∷ log) =
    let c = chip port log in
    if at == port then on_command v c else (if at == port + 1 then data_in_phase c.phase v c else c)
chip port (_ ∷ log) = chip port log
