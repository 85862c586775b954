-- ===== src/Boot/Tests.antt =====
-- The whole start on a machine with a clock and a host bridge, whose board finds no memory map.
use tiny_bios.Prelude.{ℕ, Bool, false, true, some, List}
use tiny_bios.Port.{Log, Hardware, Cmd, pure}
use tiny_bios.Prelude.{◌==◌, ◌^◌, ◌∷◌, if◌then◌else◌}
use tiny_bios.Port.{wrote32}
use tiny_bios.Cmos.{MemoryEntry}
use tiny_bios.Cmos.Clock.{selected}
use tiny_bios.Boot.Sequence.{Allocations}

-- The 24th of December, in BCD.
abbrev registers : ℕ → ℕ
registers reg = if reg == 7 then 0x24 else (if reg == 8 then 0x12 else 0)

abbrev bridge : ℕ → ℕ
bridge w = if w == 2 ^ 31 then 0x801234 else 0xffffffff

abbrev last_address : Log → ℕ
last_address (wrote32 w at ∷ log) = w
last_address _ = 0

-- The serial line has room, whatever is asked of it.
abbrev machine : Hardware
machine log width port =
    if width == 32
    then bridge (last_address log)
    else (if port == 0x3fd then 0x60 else registers (selected log))

abbrev all_granted : Allocations
all_granted = record {
  device_granted = λ i. true;
  data_granted = λ i. true;
  pte = λ n. some 0x20000;
  pdpt = λ n. some 0x30000;
  pml4 = λ n. some 0x40000;
  pci = λ i. true;
  ata = λ r. true;
}

abbrev no_map : List MemoryEntry → Cmd (Bool × List MemoryEntry)
no_map entries = pure (false, entries)
