-- ===== src/Boot.antt =====
-- src/post.c and src/mainboards/qemu/superio/superio.c: the memory map and the output device at
-- start; Boot/Sequence has the calls. What the board and a driver do are parameters.
pub mod Output
pub mod Sequence
pub mod Steps
pub mod Uart
pub mod Posted
pub mod Main
mod Tests
use Prim.Native.String.{String}
use tiny_bios.Prelude.{
  ℕ, Bool, true, false, Option, none, some, List, [], ◌∷◌, ◌==◌, not, if◌then◌else◌,
}
use tiny_bios.Device.{DeviceStatus, status_faulty, status_initialised}
use tiny_bios.Port.{Cmd, pure, ◌>>=◌, ◌>>◌, outb, blogf}
use tiny_bios.Startup.{Device, is_initialised}
use tiny_bios.Cmos.{MemoryEntry, read_memory_info}

unfoldable pub superio_init : Cmd Unit
superio_init = do outb 0x00 0x03f8; outb 0x00 0x03f8

unfoldable pub ram_type_to_str : ℕ → String
ram_type_to_str type =
    if type == 1
    then "FREE"
    else if type == 2
    then "RESERVED"
    else if type == 3
    then "MMIO"
    else "UNKNOWN"

-- One line for each entry; the type of the memory is printed by itself.
unfoldable pub print_map : List MemoryEntry → Cmd Unit
print_map [] = pure tt
print_map (e ∷ entries) = do
  blogf " + 0x%08x - 0x%08x: %s\n" (e.addr ∷ e.size ∷ [])
  blogf (ram_type_to_str e.type) []
  print_map entries

-- `board` is `mainboard_specific_memory_init`; the result has the map beside the status.
unfoldable pub init_memory_map :
    (board : List MemoryEntry → Cmd (Bool × List MemoryEntry))
    → List MemoryEntry
    → Cmd (DeviceStatus × List MemoryEntry)
init_memory_map board entries = do
  (stat, found) ← board entries
  (ret, map) ←
      (if stat then pure (status_initialised, found) else (do
        blogf "Mainboard-specific memory init failed, fallback to CMOS\n" []
        fallback ← read_memory_info found
        pure (status_faulty, fallback)))
  blogf "Memory map:\n" []
  print_map map
  pure (ret, map)

-- `console_device`, with the device that it writes to.
pub record DefaultConsole (D : Type 0) : Type 0 where
  pub dev : Option (Device D)
  pub tx_func : Option (ℕ → List ℕ → Cmd ℕ)
  pub enabled : Bool

unfoldable pub after_driver :
    {D : Type 0} → (name : String) → Device D → DeviceStatus → D → Cmd (Device D)
after_driver name dev status data' = do
  (if is_initialised status
      then pure tt
      else (do blogf "Failed to switch to output device %s\n" []; blogf name []))
  pure (record dev { status = status; device_data = data'; device_name = name })

unfoldable pub bring_up :
    {D : Type 0} → (D → Cmd (DeviceStatus × D)) → (name : String) → Device D → Cmd (Device D)
bring_up init_func name dev =
    if is_initialised dev.status
    then pure dev
    else (do (status, data') ← init_func dev.device_data; after_driver name dev status data')

-- The result of the code, and the new `default_console_device`.
unfoldable pub switch_output_device :
    {D : Type 0}
    → (init_func : D → Cmd (DeviceStatus × D)) → (write_func : ℕ → List ℕ → Cmd ℕ) → (name : String)
    → Device D
    → Cmd (Bool × DefaultConsole D)
switch_output_device init_func write_func name dev = do
  dev' ← bring_up init_func name dev
  blogf "Switched default output device to %s\n" []
  blogf dev'.device_name []
  pure (true, record { dev = some dev'; tx_func = some write_func; enabled = true })
