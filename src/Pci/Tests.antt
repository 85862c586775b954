-- ===== src/Pci/Tests.antt =====
-- The theorems on the configuration space at a small simulated bus.
use tiny_bios.Prelude.{
  false, ◌||◌, ◌*◌, [], ◌∷◌, get_elem?, ◌+◌, ℕ, ◌^◌, ◌<◌, ◌≡◌, refl, arith, true, Option, none,
  ◌==◌, if◌then◌else◌,
}
use tiny_bios.Port.{Hardware, wrote32}
use tiny_bios.Port.Triples.{Keeps, Ends}
use tiny_bios.Pci.Names.{subclass_name}
use tiny_bios.Pci.Sections.{comms, names_of, subclass_name-shifted}
use tiny_bios.Pci.{
  PciDevice, class_code, subclass, pci_class, pci_subclass, ConfigAddress, word, first_address,
  Entry, Granted, add_devices_from_bus, pci_vid, pci_header_type, enumerate_pci_buses,
}
use tiny_bios.Pci.Functions.{
  present, last_device, Unfinished, FirstBus, enumerate_pci_buses-Unfinished,
  enumerate_pci_buses-Ends,
}
use tiny_bios.Pci.Config.{decode, Fits, decode-word}
use tiny_bios.Pci.Slots.{slots, answering, Filled, add_devices_from_bus-Filled}
use tiny_bios.Pci.Handshake.{Selected, add_devices_from_bus-Selected}

abbrev plenty : Granted
plenty i = true

abbrev no_devices : ℕ → Option Entry
no_devices i = none

abbrev some_address : ConfigAddress
some_address = record {
  offset = 0x10;
  function = 5;
  device = 30;
  bus = 7;
  reserved = 0;
  enable = 1;
}

some_address-Fits : Fits some_address
some_address-Fits = record {
  offset_fits = omega arith;
  function_fits = omega arith;
  device_fits = omega arith;
  bus_fits = omega arith;
  reserved_fits = omega arith;
  enable_fits = omega arith;
}

decode-word_example : (decode (word some_address) ≡ some_address) × (word some_address < 2 ^ 32)
decode-word_example = decode-word some_address some_address-Fits

add_devices_from_bus-Selected_example :
    Keeps Selected (add_devices_from_bus plenty no_devices 0 first_address)
add_devices_from_bus-Selected_example =
    add_devices_from_bus-Selected plenty no_devices 0 first_address (omega arith) refl

-- A parallel port's controller.
abbrev parallel_port : PciDevice
parallel_port = record {
  address = some_address;
  bist_executed = false;
  header = 0 ∷ 0 ∷ 0x07010000 ∷ 0 ∷ [];
}

subclass_name-shifted_example :
    subclass_name parallel_port ≡ get_elem? (names_of comms) (subclass parallel_port + 1)
unfolding class_code subclass pci_class pci_subclass
subclass_name-shifted_example = subclass_name-shifted parallel_port comms refl (omega arith)

-- A machine that answers from a configuration space.
abbrev answering_machine : (ℕ → ℕ) → Hardware
answering_machine space [] width port = 0
answering_machine space (wrote32 w at ∷ log) width port = space w
answering_machine space (_ ∷ log) width port = 0

-- Every function is there, and has the bit for several functions.
abbrev crowded : ℕ → ℕ
crowded w = 0x801234

crowded_all : (f : ℕ) → present crowded (last_device f) ≡ true
unfolding present pci_vid
crowded_all f = refl

crowded_first : present crowded first_address ≡ true
unfolding present pci_vid
crowded_first = refl

enumerate_pci_buses-Unfinished_example :
    Unfinished (enumerate_pci_buses plenty 1000 no_devices (answering_machine crowded) [])
unfolding pci_header_type
enumerate_pci_buses-Unfinished_example =
    enumerate_pci_buses-Unfinished crowded (answering_machine crowded) (λ w log. refl) plenty
      crowded_first refl (λ f h. crowded_all f) 1000 no_devices []

-- The host bridge alone.
abbrev bridge_only : ℕ → ℕ
bridge_only w = if w == 2 ^ 31 then 0x801234 else 0xffffffff

bridge_only_absent : present bridge_only (last_device 1) ≡ false
unfolding present pci_vid word
bridge_only_absent = refl

enumerate_pci_buses-Ends_example :
    Ends
      (FirstBus bridge_only no_devices)
      (enumerate_pci_buses plenty 1 no_devices (answering_machine bridge_only) [])
enumerate_pci_buses-Ends_example =
    enumerate_pci_buses-Ends bridge_only (answering_machine bridge_only) (λ w log. refl) plenty
      bridge_only_absent 0 no_devices []

-- Two devices: the host bridge and one at number 3.
abbrev two_devices : ℕ → ℕ
two_devices w = if (w == 2 ^ 31) || (w == 2 ^ 31 + 3 * 2 ^ 11) then 0x801234 else 0xffffffff

two_numbers : answering two_devices (slots first_address) 31 0 ≡ 0 ∷ 3 ∷ []
unfolding word
two_numbers = refl

add_devices_from_bus-Filled_example :
    Ends
      (Filled two_devices
        (slots first_address)
        (answering two_devices (slots first_address) 31 0)
        (record { devices = no_devices; offset = 0; count = 0; address = first_address }))
      (add_devices_from_bus plenty no_devices 0 first_address (answering_machine two_devices) [])
add_devices_from_bus-Filled_example =
    add_devices_from_bus-Filled two_devices (answering_machine two_devices) (λ w log. refl) plenty
      no_devices 0 first_address [] (omega arith)
