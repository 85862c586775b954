-- ===== src/Pit/Tests.antt =====
-- The timer's initialisation behind a table at 0x10000.
use tiny_bios.Prelude.{◌≡◌, arith, some, none, false, if◌then◌else◌, ◌==◌, []}
use tiny_bios.Memory.{Memory, memset}
use tiny_bios.Device.{status_initialised}
use tiny_bios.Port.{Hardware}
use tiny_bios.Port.Triples.{Returns}
use tiny_bios.Idt.{table_size, fill_table}
use tiny_bios.Idt.Table.{IsTable, fill_table-IsTable}
use tiny_bios.Pit.{pit_init}
use tiny_bios.Pit.Channel.{channel_after, pit_init-Returns}

abbrev silent : Hardware
silent log bits port = 0

abbrev filled : Memory
filled = fill_table 0x10000 0xfff01234 (memset 0x10000 0 table_size (λ _. 0))

pit_init-Returns_example :
    Returns
      (λ r after.
        (r.0 ≡ status_initialised)
        × (channel_after after ≡ record {
          counts_in_bcd = false;
          mode = 3;
          access = 3;
          low_byte = none;
          divisor = some 4096;
        })
        × IsTable (r.1) 0x10000 (λ v. if 0x20 == v then 0xfff05678 else 0xfff01234))
      (pit_init 0x10000 0xfff05678 filled silent [])
pit_init-Returns_example =
    pit_init-Returns 0x10000 0xfff05678 filled (λ _. 0xfff01234) silent [] (omega arith)
      (fill_table-IsTable 0x10000 0xfff01234 (omega arith) (λ _. 0) (omega arith))
