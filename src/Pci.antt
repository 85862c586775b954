-- ===== src/Pci.antt =====
-- src/drivers/pci/pci.c and pci_util.c with src/include/drivers/pci/pci.h and pci_util.h: the PCI
-- configuration space and the enumeration of its devices.
pub mod Config
pub mod Registers
pub mod Bars
pub mod Steps
pub mod Devices
pub mod Handshake
pub mod Places
pub mod Space
pub mod Slots
pub mod Functions
pub mod Names
pub mod Sections
mod Tests
use tiny_bios.Prelude.{
  ℕ, zero, suc, ◌+◌, ◌*◌, ◌%◌, ◌^◌, bit_and, bit_or, ◌>>>◌, Bool, true, false, not, List, [], ◌∷◌,
  ◌++◌, get_or, ◌==◌, ◌!=◌, u8, u16, if◌then◌else◌, Option, some,
}
use tiny_bios.Device.{DeviceStatus, status_present, DeviceType, device_access_mmio, device_bridge}
use tiny_bios.Port.{Cmd, pure, ◌>>=◌, ◌>>◌, inl, outl, panic, no_rounds_left}

abbrev pub config_port : ℕ
config_port = 0x0cf8

abbrev pub data_port : ℕ
data_port = 0x0cfc

-- `pci_config_address`
pub record ConfigAddress : Type 0 where
  pub offset : ℕ
  pub function : ℕ
  pub device : ℕ
  pub bus : ℕ
  pub reserved : ℕ
  pub enable : ℕ

-- The bit fields as one dword, the first field lowest.
unfoldable pub word : ConfigAddress → ℕ
word a =
    a.offset % 2 ^ 8
    + (a.function % 2 ^ 3) * 2 ^ 8
    + (a.device % 2 ^ 5) * 2 ^ 11
    + (a.bus % 2 ^ 8) * 2 ^ 16
    + (a.reserved % 2 ^ 7) * 2 ^ 24
    + (a.enable % 2) * 2 ^ 31

-- The caller's address comes back, since the C function changes it.
unfoldable pub read_config : ConfigAddress → ℕ → Cmd (ℕ × ConfigAddress)
read_config a off = do
  outl (word (record a { offset = u8 off })) config_port
  v ← inl data_port
  pure (v, record a { offset = 0 })

unfoldable pub write_config : ConfigAddress → (off value : ℕ) → Cmd ConfigAddress
write_config a off value = do
  outl (word (record a { offset = u8 off })) config_port
  outl value data_port
  pure (record a { offset = 0 })

unfoldable pub pci_did : ℕ → ℕ
pci_did reg = u16 (reg >>> 16)

unfoldable pub pci_vid : ℕ → ℕ
pci_vid reg = u16 (bit_and reg 0x0000ffff)

unfoldable pub pci_class : ℕ → ℕ
pci_class reg = u8 (reg >>> 24)

unfoldable pub pci_subclass : ℕ → ℕ
pci_subclass reg = u8 (reg >>> 16)

unfoldable pub pci_header_type : ℕ → ℕ
pci_header_type reg = u8 (reg >>> 16)

unfoldable pub pci_prog_if : ℕ → ℕ
pci_prog_if reg = u8 (reg >>> 8)

-- `pci_device_data`; the header is the dwords that were read into it, in order.
pub record PciDevice : Type 0 where
  pub address : ConfigAddress
  pub bist_executed : Bool
  pub header : List ℕ

unfoldable pub class_code : PciDevice → ℕ
class_code dev = pci_class (get_or dev.header 2 0)

unfoldable pub subclass : PciDevice → ℕ
subclass dev = pci_subclass (get_or dev.header 2 0)

unfoldable pub prog_if : PciDevice → ℕ
prog_if dev = pci_prog_if (get_or dev.header 2 0)

unfoldable pub header_type : PciDevice → ℕ
header_type dev = pci_header_type (get_or dev.header 3 0)

unfoldable pub built_in_self_test : PciDevice → ℕ
built_in_self_test dev = u8 (get_or dev.header 3 0 >>> 24)

-- The result says whether the test was started; the device comes back with its address.
unfoldable pub start_selftest : PciDevice → Cmd (Bool × PciDevice)
start_selftest dev =
    let reg = built_in_self_test dev in
    if bit_and reg 0x80 != 0
    then (do
      a ← write_config dev.address 0x0c (bit_or reg 0x40)
      pure (true, record dev { address = a }))
    else pure (false, dev)

-- So many dwords from a register on.
unfoldable pub read_dwords : (count reg : ℕ) → ConfigAddress → Cmd (List ℕ × ConfigAddress)
read_dwords zero reg a = pure ([], a)
read_dwords (suc count) reg a = do
  (v, a1) ← read_config a (reg * 4)
  (vs, a2) ← read_dwords count (reg + 1) a1
  pure (v ∷ vs, a2)

abbrev pub pci2cb_bridge_hdr : ℕ
pci2cb_bridge_hdr = 2

-- Registers 0 to 3, then those from 4 up to a limit that the header type gives.
unfoldable pub read_header : PciDevice → Cmd PciDevice
read_header dev = do
  (common, a1) ← read_dwords 4 0 dev.address
  let first : PciDevice = record dev { header = common; address = a1 }
  (rest, a2) ← read_dwords (if header_type first == pci2cb_bridge_hdr then 13 else 11) 4 a1
  pure (record first { header = common ++ rest; address = a2 })

unfoldable pub dev_is_bridge : ConfigAddress → Cmd (Bool × ConfigAddress)
dev_is_bridge a = do
  (reg, a1) ← read_config a 8
  pure ((if pci_class reg == 6 then pci_subclass reg == 4 else false), a1)

-- An entry of `pci_device_array`, a `device` with its data.
pub record Entry : Type 0 where
  pub device_data : PciDevice
  pub status : DeviceStatus
  pub type : DeviceType

-- The array, the next index and the count of the scan of a bus, with the caller's address.
pub record Scan : Type 0 where
  pub devices : ℕ → Option Entry
  pub offset : ℕ
  pub count : ℕ
  pub address : ConfigAddress

-- Whether both calls of `calloc` for the device at an index give memory.
abbrev pub Granted : Type 0
Granted = ℕ → Bool

unfoldable pub put_entry : (ℕ → Option Entry) → ℕ → Entry → ℕ → Option Entry
put_entry devices at e i = if i == at then some e else devices i

unfoldable pub add_device : Granted → Scan → ConfigAddress → Cmd Scan
add_device granted s a =
    if not (granted s.offset) then panic "%s: pci_add_devices_from_bus: out of memory\n" else (do
      dev ← read_header (record { address = a; bist_executed = false; header = [] })
      (started, dev') ← start_selftest dev
      (bridge, a') ← dev_is_bridge a
      pure (record {
        devices = put_entry s.devices s.offset (record {
          device_data = record dev' { bist_executed = started };
          status = status_present;
          type = if bridge then device_bridge else device_access_mmio;
        });
        offset = u8 (s.offset + 1);
        count = u8 (s.count + 1);
        address = a';
      }))

unfoldable pub scan_slot : Granted → ℕ → Scan → Cmd Scan
scan_slot granted i s = do
  (reg, a1) ← read_config (record s.address { device = i }) 0
  if reg == 0xffffffff then pure (record s { address = a1 }) else do
    (again, a2) ← read_config a1 0
    if again == 0xffffffff then pure (record s { address = a2 }) else add_device granted s a2

-- The slots from `i` on, so many of them.
unfoldable pub scan_slots : Granted → (left i : ℕ) → Scan → Cmd Scan
scan_slots granted zero i s = pure s
scan_slots granted (suc left) i s = do
  s' ← scan_slot granted i s
  scan_slots granted left (i + 1) s'

unfoldable pub add_devices_from_bus : Granted → (ℕ → Option Entry) → ℕ → ConfigAddress → Cmd Scan
add_devices_from_bus granted devices offset a =
    scan_slots granted 31 0 (record { devices = devices; offset = offset; count = 0; address = a })

abbrev pub first_address : ConfigAddress
first_address = record { offset = 0; function = 0; device = 0; bus = 0; reserved = 0; enable = 1 }

-- The `do` loop over the functions, whose 3-bit counter is never 8: on fuel.
unfoldable pub function_loop :
    Granted
    → ℕ
    → (ℕ → Option Entry)
    → ℕ
    → (a current : ConfigAddress) → Cmd (ℕ × (ℕ → Option Entry))
function_loop granted zero devices count a current = no_rounds_left
function_loop granted (suc fuel) devices count a current =
    let rest = function_loop granted fuel in
    do
      (reg, a1) ← read_config (record a { function = (a.function + 1) % 2 ^ 3 }) 0
      if pci_vid reg == 0xffff then pure (count, devices) else do
        s ← add_devices_from_bus granted devices count (record current { bus = a1.function })
        rest s.devices (u8 (count + s.count)) a1 s.address

unfoldable pub enumerate_pci_buses : Granted → ℕ → (ℕ → Option Entry) → Cmd (ℕ × (ℕ → Option Entry))
enumerate_pci_buses granted fuel devices = do
  (reg, a1) ← read_config first_address 0
  if pci_vid reg == 0xffff then pure (0, devices) else do
    (kind, a2) ← read_config a1 0x0c
    s ← add_devices_from_bus granted devices 0 a2
    if bit_and (pci_header_type kind) 0x80 != 0
        then function_loop granted fuel s.devices s.count s.address s.address
        else pure (s.count, s.devices)
