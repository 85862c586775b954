-- ===== src/Pci/Names.antt =====
-- The names that `pci_print_devtree` of src/drivers/pci/pci.c prints for a device, from the tables of
-- src/include/drivers/pci/pci.h.
use Prim.Native.String.{String}
use tiny_bios.Prelude.{
  ℕ, ◌+◌, List, [], ◌∷◌, ◌++◌, Option, none, some, get_elem?, get_or, ltb, ◌==◌, u8, if◌then◌else◌,
}
use tiny_bios.Pci.{PciDevice, Entry, class_code, subclass}
use tiny_bios.Port.{Cmd, pure, ◌>>◌, blogf}

abbrev pub unknown_name : String
unknown_name = "other"

abbrev pub class_names : List String
class_names =
    "unclassified" ∷ "mass storage" ∷ "network" ∷ "display" ∷ "multimedia" ∷ "memory" ∷ "bridge"
    ∷ "simple comms" ∷ "base system peripheral" ∷ "input device" ∷ "docking station" ∷ "processor"
    ∷ "serial bus" ∷ "wireless" ∷ "intelligent" ∷ "satcom" ∷ "encryption" ∷ "signal processing"
    ∷ "processing accelerator" ∷ "non essential" ∷ []

-- The table of the subclasses in the sections that its comments name.
abbrev pub mass_storage_names : List String
mass_storage_names =
    "SCSI" ∷ "IDE" ∷ "Floppy" ∷ "IPI" ∷ "RAID" ∷ "ATA" ∷ "Serial ATA" ∷ "Serial SCSI" ∷ "NV memory"
    ∷ []

abbrev pub network_names : List String
network_names =
    "ethernet" ∷ "token ring" ∷ "FDDI" ∷ "ATM" ∷ "ISDN" ∷ "WorldFip" ∷ "PICMG" ∷ "infiniband"
    ∷ "fabric" ∷ []

abbrev pub display_names : List String
display_names = "VGA" ∷ "XGA" ∷ "3D" ∷ []

abbrev pub memory_names : List String
memory_names = "RAM" ∷ "flash" ∷ []

abbrev pub comms_names : List String
comms_names = "serial" ∷ "parallel" ∷ "multiport serial" ∷ "modem" ∷ "iee 488" ∷ "smart card" ∷ []

abbrev pub base_system_names : List String
base_system_names = "PIC" ∷ "DMA" ∷ "timer" ∷ "RTC" ∷ "PCI" ∷ "SD" ∷ "IOMMU" ∷ []

abbrev pub input_names : List String
input_names = "keyboard" ∷ "digitizer pen" ∷ "mouse" ∷ "scanner" ∷ "gameport" ∷ []

abbrev pub serial_bus_names : List String
serial_bus_names =
    "firewire" ∷ "access bus" ∷ "SSA" ∷ "USB" ∷ "Fibre channel" ∷ "SMbus" ∷ "InfiniBand" ∷ "IPMI"
    ∷ "SERCOS" ∷ "CANbus" ∷ []

abbrev pub wireless_names : List String
wireless_names = "iRDA" ∷ "IR" ∷ "RF" ∷ "bluetooth" ∷ "broadband" ∷ "802.1a" ∷ "802.1b" ∷ []

abbrev pub bridge_names : List String
bridge_names =
    "Host" ∷ "ISA" ∷ "EISA" ∷ "MCA" ∷ "PCI" ∷ "PCMCIA" ∷ "NuBus" ∷ "CardBus" ∷ "RACEway" ∷ "PCI"
    ∷ "InfiniBand to PCI" ∷ []

abbrev pub subclass_names : List String
subclass_names =
    mass_storage_names
    ++ (network_names
        ++ (display_names
            ++ (memory_names
                ++ (comms_names
                    ++ (base_system_names
                        ++ (input_names
                            ++ (serial_bus_names ++ (wireless_names ++ bridge_names))))))))

unfoldable pub cache_line_size : PciDevice → ℕ
cache_line_size dev = u8 (get_or dev.header 3 0)

-- None where the C function reads behind its table.
unfoldable pub class_name : PciDevice → Option String
class_name dev =
    if ltb (class_code dev) 0x14
    then get_elem? class_names (class_code dev)
    else (if cache_line_size dev == 0x40 then some "co-processor" else some unknown_name)

-- The `switch`: where the subclasses of a class start in the table.
unfoldable pub section_offset : ℕ → Option ℕ
section_offset c =
    if c == 1
    then some 0
    else (if c == 2
        then some 9
        else (if c == 3
            then some 18
            else (if c == 5
                then some 21
                else (if c == 7
                    then some 24
                    else (if c == 8
                        then some 31
                        else (if c == 9
                            then some 37
                            else (if c == 12
                                then some 41
                                else (if c == 13
                                    then some 51
                                    else (if c == 6 then some 58 else none)))))))))

abbrev pub name_at : Option ℕ → ℕ → Option String
name_at none sub = some unknown_name
name_at (some off) sub = get_elem? subclass_names (off + sub)

unfoldable pub subclass_name : PciDevice → Option String
subclass_name dev =
    if subclass dev == 0x80
    then some unknown_name
    else name_at (section_offset (class_code dev)) (subclass dev)

-- A name is printed by itself; what stands behind the table is not known, and left out.
unfoldable pub print_name : Option String → Cmd Unit
print_name none = pure tt
print_name (some name) = blogf name []

-- The lines of the devices, one after the other.
unfoldable pub print_devtree : List Entry → Cmd Unit
print_devtree [] = pure tt
print_devtree (e ∷ entries) = do
  blogf "PCI @ %04x:%04x:%04x: %s %s controller\n" (
      e.device_data.address.bus ∷ e.device_data.address.device ∷ e.device_data.address.function
      ∷ [])
  print_name (subclass_name e.device_data)
  print_name (class_name e.device_data)
  (if e.device_data.bist_executed then blogf " --> Self test executed\n" [] else pure tt)
  print_devtree entries
