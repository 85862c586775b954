-- ===== src/Ata/Controllers.antt =====
-- src/drivers/ata/ata.c: bringing up the drives of the IDE controllers that the PCI enumeration found.
use tiny_bios.Prelude.{
  ℕ, ◌+◌, bit_and, bit_or, Bool, true, false, not, ◌&&◌, ◌||◌, List, [], ◌∷◌, ◌++◌, ◌==◌, u8,
  if◌then◌else◌, Option, none, some,
}
use tiny_bios.Device.{device_access_pio}
use tiny_bios.Port.{Cmd, pure, ◌>>=◌, ◌>>◌, blogf, panic}
use tiny_bios.Pci.{Entry, class_code, subclass, prog_if}
use tiny_bios.Ata.{
  DriveId, AtaDrive, AtaBus, AtaIde, Granted, no_drives_in_bus, select_drive, identify_drive,
  read_words, model_characters, drive0, drive1, drive_id_not_ata, for_bus, for_drive, for_header,
  for_model, for_ide, for_array,
}

abbrev pub is_drive : DriveId → Bool
is_drive drive_id_not_ata = false
is_drive _ = true

-- Without memory for the model, the text is printed without its characters.
unfoldable pub describe_drive : Granted → AtaBus → DriveId → Cmd (Option AtaDrive)
describe_drive granted bus id =
    if not (granted (for_header bus.base_addr))
    then (do
      blogf "No enough space for reading ata drive info!\n" []
      pure (some (record { header = none; drive_id = id })))
    else (do
      header ← read_words 256 bus
      blogf "Found drive: %s\n"
          (if granted (for_model bus.base_addr) then model_characters 20 27 header else [])
      pure (some (record { header = some header; drive_id = id })))

unfoldable pub init_drive : Granted → AtaBus → Cmd (Option AtaDrive)
init_drive granted bus = if not (granted (for_drive bus.base_addr)) then pure none else do
  id ← identify_drive bus
  if is_drive id then describe_drive granted bus id else pure none

unfoldable pub init_second : Granted → AtaBus → Cmd AtaBus
init_second granted bus = do
  (selected, bus') ← select_drive bus drive1
  if not selected
      then pure bus'
      else do drive ← init_drive granted bus'; pure (record bus' { second_drive = drive })

unfoldable pub init_first : Granted → AtaBus → Cmd AtaBus
init_first granted bus = do
  (selected, bus') ← select_drive bus drive0
  if not selected
      then pure bus'
      else do drive ← init_drive granted bus'; pure (record bus' { first_drive = drive })

unfoldable pub init_bus : Granted → (base dcr : ℕ) → Cmd (Option AtaBus)
init_bus granted base dcr = do
  nothing ← no_drives_in_bus base
  if nothing
      then pure none
      else (if not (granted (for_bus base)) then pure none else do
        second ← init_second granted (record {
          first_drive = none;
          second_drive = none;
          active_drive = drive0;
          base_addr = base;
          dcr_addr = dcr;
        })
        bus ← init_first granted second
        pure (some bus))

abbrev pub base_addrs : List ℕ
base_addrs = 0x01f0 ∷ 0x0170 ∷ 0x01e8 ∷ 0x0168 ∷ []

unfoldable pub base_to_dcr : ℕ → ℕ
base_to_dcr base = bit_or base 0x0206

abbrev pub add_bus : Option AtaBus → List AtaBus → List AtaBus
add_bus none buses = buses
add_bus (some bus) buses = buses ++ (bus ∷ [])

unfoldable pub init_buses : Granted → List ℕ → List AtaBus → Cmd (List AtaBus)
init_buses granted [] buses = pure buses
init_buses granted (base ∷ bases) buses = do
  bus ← init_bus granted base (base_to_dcr base)
  init_buses granted bases (add_bus bus buses)

-- A controller in native mode is left without buses.
unfoldable pub init_all_buses : Granted → ℕ → Cmd (List AtaBus)
init_all_buses granted iface =
    if bit_and iface 1 == 1 then pure [] else init_buses granted base_addrs []

-- A controller counts from 0 in the order that it is found.
unfoldable pub init_ide : Granted → ℕ → Entry → Cmd (Option AtaIde)
init_ide granted at dev = if not (granted (for_ide at)) then pure none else do
  buses ← init_all_buses granted (prog_if dev.device_data)
  pure (some (record { iface = prog_if dev.device_data; buses = buses; ide_device_data = dev }))

unfoldable pub is_ata_ide : Entry → Bool
is_ata_ide dev =
    (class_code dev.device_data == 1)
    && ((subclass dev.device_data == 1)
        || ((subclass dev.device_data == 5) || (subclass dev.device_data == 6)))

-- The count and the array after a controller was or was not brought up; the array is then grown.
unfoldable pub keep_ide : Granted → ℕ → List AtaIde → Option AtaIde → Cmd (ℕ × List AtaIde)
keep_ide granted count ides none = pure (count, ides)
keep_ide granted count ides (some ide) =
    if not (granted (for_array (u8 (count + 1))))
    then panic "Out of memory, too many IDEs found!"
    else pure (u8 (count + 1), ides ++ (ide ∷ []))

-- The controllers found so far come first. The devices are those of the array, in its order.
unfoldable pub init_controllers : Granted → List Entry → ℕ → List AtaIde → Cmd (ℕ × List AtaIde)
init_controllers granted [] count ides = pure (count, ides)
init_controllers granted (dev ∷ devs) count ides =
    if not (is_ata_ide dev) then init_controllers granted devs count ides else do
      ide ← init_ide granted count (record dev { type = device_access_pio })
      (count', ides') ← keep_ide granted count ides ide
      init_controllers granted devs count' ides'

-- The result is the count and the array.
unfoldable pub init_ata_controllers : Granted → List Entry → Cmd (ℕ × List AtaIde)
init_ata_controllers granted devs = init_controllers granted devs 0 []
