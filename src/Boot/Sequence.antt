-- ===== src/Boot/Sequence.antt =====
-- `post_and_init` of src/post.c and `c_main` of src/c_entry.c: the order in which the firmware brings
-- its devices up. A global of the C code is a field of what is returned.
use tiny_bios.Prelude.{ℕ, zero, suc, ◌+◌, ◌-◌, Bool, true, false, Option, none, some, List, [], ◌∷◌}
use tiny_bios.Memory.{Memory}
use tiny_bios.Port.{Hardware, Run, Cmd, pure, ◌>>=◌, ◌>>◌, blogf, emit, interrupts}
use tiny_bios.Startup.{Device, new_device, initialize_device}
use Prim.Native.String.{String}
use tiny_bios.Boot.Uart.{over_uart}
use tiny_bios.Boot.{DefaultConsole, superio_init, init_memory_map, switch_output_device}
use tiny_bios.Serial.{SerialDevice, init_device, serial_tx}
use tiny_bios.Cmos.{MemoryEntry, CmosData, cmos_init}
use tiny_bios.Paging.{Tables, init_paging}
use tiny_bios.Pic.{Words, no_words, pic_initialize, pic_unmask_irq}
use tiny_bios.Kbdctl.{Ps2Status, set_default_init}
use tiny_bios.Pit.{pit_init}
use tiny_bios.Pci.{Entry, enumerate_pci_buses}
use tiny_bios.Pci.{Granted as PciGranted}
use tiny_bios.Pci.Names.{print_devtree}
use tiny_bios.Ata.{AtaIde}
use tiny_bios.Ata.Controllers.{init_ata_controllers}
use tiny_bios.Ata.{Granted as AtaGranted}
use tiny_bios.Malloc.{heap_init}
use tiny_bios.Idt.{init_idt}

-- The answers of the allocator: for each device, to the call for it and to the one for its data.
pub record Allocations : Type 0 where
  pub device_granted : ℕ → Bool
  pub data_granted : ℕ → Bool
  pub pte : ℕ → Option ℕ
  pub pdpt : ℕ → Option ℕ
  pub pml4 : ℕ → Option ℕ
  pub pci : PciGranted
  pub ata : AtaGranted

pub record Devices : Type 0 where
  pub memory_device : Device (List MemoryEntry)
  pub programmable_interrupt_controller : Device Words
  pub cmos_dev : Device CmosData
  pub keyboard_controller_device : Device Ps2Status
  pub programmable_interrupt_timer : Device Memory

-- What the bus scans find.
pub record Buses : Type 0 where
  pub devcnt : ℕ
  pub pci_device_array : ℕ → Option Entry
  pub ide_cnt : ℕ
  pub ata_ide_array : List AtaIde

pub record Posted : Type 0 where
  pub console : DefaultConsole SerialDevice
  pub devices : Devices
  pub pml4 : ℕ
  pub tables : Tables
  pub buses : Buses

abbrev pub no_uart : SerialDevice
no_uart = record { base_port = 0; baudrate_divisor = 0; line_control = 0; fifo_control = 0 }

abbrev pub no_cmos : CmosData
no_cmos = record { delay = 0; rtc_bcd_enabled = false; rtc_12hr_enabled = false }

abbrev pub no_keyboard : Ps2Status
no_keyboard = record {
  dual_channel = false;
  current_configuration = 0;
  devices_initialised = 0;
  a20line_enabled = false;
}

-- The structures of the devices behind the first one. The timer has no data: what its driver changes
-- is the memory `m` of the interrupt descriptor table.
unfoldable pub new_devices : Allocations → Memory → Cmd Devices
new_devices al m = do
  memory ← new_device (al.device_granted 1) (al.data_granted 1) []
  pic ← new_device (al.device_granted 2) (al.data_granted 2) no_words
  cmos ← new_device (al.device_granted 3) (al.data_granted 3) no_cmos
  keyboard ← new_device (al.device_granted 4) (al.data_granted 4) no_keyboard
  timer ← new_device (al.device_granted 5) (al.data_granted 5) m
  pure (record {
    memory_device = memory;
    programmable_interrupt_controller = pic;
    cmos_dev = cmos;
    keyboard_controller_device = keyboard;
    programmable_interrupt_timer = timer;
  })

-- The four calls of `initialize_device`. `idt` is the address of the interrupt descriptor table and
-- `handler` the one of `pit_int_handler`; the waits for the clock have so many rounds.
unfoldable pub initialize_devices : (fuel idt handler : ℕ) → Devices → Cmd Devices
initialize_devices fuel idt handler d = do
  pic ← initialize_device pic_initialize d.programmable_interrupt_controller "8259/PIC" false
  keyboard ← initialize_device set_default_init d.keyboard_controller_device "8042/PS2" false
  cmos ← initialize_device (cmos_init fuel) d.cmos_dev "CMOS/RTC" false
  timer ← initialize_device (pit_init idt handler) d.programmable_interrupt_timer "825X/PIT" false
  pure (record d {
    programmable_interrupt_controller = pic;
    keyboard_controller_device = keyboard;
    cmos_dev = cmos;
    programmable_interrupt_timer = timer;
  })

abbrev onto : Option Entry → List Entry → List Entry
onto none entries = entries
onto (some e) entries = e ∷ entries

-- The devices that the array has at `left` indices from `i` on.
unfoldable pub devices_from : (left i : ℕ) → (ℕ → Option Entry) → List Entry
devices_from zero i array = []
devices_from (suc left) i array = onto (array i) (devices_from left (i + 1) array)

-- The arrays are cleared by `calloc`.
unfoldable pub scan_buses : (fuel : ℕ) → Allocations → Cmd Buses
scan_buses fuel al = do
  (devcnt, array) ← enumerate_pci_buses al.pci fuel (λ _. none)
  print_devtree (devices_from devcnt 0 array)
  (ide_cnt, ides) ← init_ata_controllers al.ata (devices_from devcnt 0 array)
  pure (record {
    devcnt = devcnt;
    pci_device_array = array;
    ide_cnt = ide_cnt;
    ata_ide_array = ides;
  })

unfoldable pub post_and_init :
    (fuel : ℕ)
    → Allocations
    → (board : List MemoryEntry → Cmd (Bool × List MemoryEntry)) → (idt handler : ℕ) → Memory
    → Cmd Posted
post_and_init fuel al board idt handler m = do
  uart_dev ← new_device (al.device_granted 0) (al.data_granted 0) no_uart
  (switched, console) ← switch_output_device init_device (serial_tx fuel) "UART 1" uart_dev
  fresh ← new_devices al m
  (status, map) ← init_memory_map board fresh.memory_device.device_data
  (pml4, tables) ← init_paging al.pte al.pdpt al.pml4 map
  up ← initialize_devices fuel idt handler (record fresh {
    memory_device = record (fresh.memory_device) { status = status; device_data = map };
  })
  buses ← scan_buses fuel al
  pure (record { console = console; devices = up; pml4 = pml4; tables = tables; buses = buses })

-- Up to the endless halt. `granted` is the allocator's answer for the interrupt descriptor table.
unfoldable pub c_main_calls :
    (fuel : ℕ)
    → Allocations
    → (board : List MemoryEntry → Cmd (Bool × List MemoryEntry)) → (granted : Option ℕ)
    → (default_int_handler handler : ℕ) → Memory
    → Cmd Posted
c_main_calls fuel al board granted default_int_handler handler m = do
  superio_init
  loaded ← init_idt granted default_int_handler (heap_init 0x8000 (0x70000 - 0x8000) m)
  posted ← post_and_init fuel al board loaded.idtr handler loaded.memory
  blogf "Early chipset initialisation done\n" []
  blogf "No payloads to execute, hang\n" []
  pic_unmask_irq 0
  emit (interrupts true)
  pure posted

-- With the texts sent over the serial port, from reset on. No text is handed to the console before
-- the port is set up, but for that of a panic, which does not return either way.
unfoldable pub c_main :
    (fuel : ℕ)
    → (characters : String → List ℕ → List ℕ) → Allocations
    → (board : List MemoryEntry → Cmd (Bool × List MemoryEntry)) → (granted : Option ℕ)
    → (default_int_handler handler : ℕ) → Memory
    → Hardware
    → Run Posted
c_main fuel characters al board granted default_int_handler handler m =
    over_uart fuel characters (c_main_calls fuel al board granted default_int_handler handler m)
