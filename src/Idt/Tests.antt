-- ===== src/Idt/Tests.antt =====
-- A table at 0x10000 with one handler everywhere, and another one added.
use tiny_bios.Prelude.{arith, if◌then◌else◌, ◌==◌}
use tiny_bios.Memory.{Memory, memset}
use tiny_bios.Idt.{table_size, fill_table, add_interrupt_handler}
use tiny_bios.Idt.Table.{IsTable, fill_table-IsTable, add_interrupt_handler-IsTable}

abbrev filled : Memory
filled = fill_table 0x10000 0xfff01234 (memset 0x10000 0 table_size (λ _. 0))

add_interrupt_handler-IsTable_example :
    IsTable
      (add_interrupt_handler 0x10000 0x20 0xfff05678 filled)
      0x10000
      (λ v. if 0x20 == v then 0xfff05678 else 0xfff01234)
add_interrupt_handler-IsTable_example =
    add_interrupt_handler-IsTable 0x10000 0xfff05678 (omega arith) 0x20 filled (λ _. 0xfff01234)
      (fill_table-IsTable 0x10000 0xfff01234 (omega arith) (λ _. 0) (omega arith))
