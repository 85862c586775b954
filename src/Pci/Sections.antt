-- ===== src/Pci/Sections.antt =====
-- Which section of the table of names a device's name comes from.
use Prim.Native.String.{String}
use tiny_bios.Prelude.{
  ℕ, ◌+◌, ◌<◌, ◌≡◌, refl, arith, ap, [], ◌∙◌, List, Option, get_elem?, length, ◌++◌, ◌==◌, false,
  if◌then◌else◌,
}
use tiny_bios.Prelude.{get_elem?-append_left, get_elem?-append_right}
use tiny_bios.Pci.{PciDevice, class_code, subclass}
use tiny_bios.Pci.Names.{
  unknown_name, bridge_names, mass_storage_names, network_names, display_names, memory_names,
  comms_names, base_system_names, input_names, subclass_names, section_offset, name_at,
  subclass_name, serial_bus_names, wireless_names,
}

-- A section of a list of names, at its place.
within :
    (before section rest : List String) (n i : ℕ)
    → n ≡ length before + i
    → i < length section
    → get_elem? (before ++ (section ++ rest)) n ≡ get_elem? section i
within before section rest n i e h =
    get_elem?-append_right before (section ++ rest) n i e ∙ get_elem?-append_left section rest i h

-- The name of a device of a class whose section starts at an offset.
named :
    (dev : PciDevice) (c off : ℕ)
    → class_code dev ≡ c
    → subclass dev < 0x80
    → section_offset c ≡ Option.some off
    → subclass_name dev ≡ get_elem? subclass_names (off + subclass dev)
unfolding subclass_name
named dev c off ec small here =
    let known : (subclass dev == 0x80) ≡ false = ground arith in
    ap
      (λ b.
        if b
        then Option.some unknown_name
        else name_at (section_offset (class_code dev)) (subclass dev))
      known
    ∙ ap (λ x. name_at x (subclass dev)) (ap section_offset ec ∙ here)

-- The table up to a section.
abbrev to_display : List String
to_display = mass_storage_names ++ network_names

abbrev to_memory : List String
to_memory = to_display ++ display_names

abbrev to_comms : List String
to_comms = to_memory ++ memory_names

abbrev to_base : List String
to_base = to_comms ++ comms_names

abbrev to_input : List String
to_input = to_base ++ base_system_names

abbrev to_serial : List String
to_serial = to_input ++ input_names

abbrev to_wireless : List String
to_wireless = to_serial ++ serial_bus_names

abbrev to_bridge : List String
to_bridge = to_wireless ++ wireless_names

-- The table from a section on.
abbrev from_wireless : List String
from_wireless = wireless_names ++ bridge_names

abbrev from_serial_bus : List String
from_serial_bus = serial_bus_names ++ from_wireless

abbrev from_input : List String
from_input = input_names ++ from_serial_bus

abbrev from_base_system : List String
from_base_system = base_system_names ++ from_input

abbrev from_comms : List String
from_comms = comms_names ++ from_base_system

abbrev from_memory : List String
from_memory = memory_names ++ from_comms

abbrev from_display : List String
from_display = display_names ++ from_memory

abbrev from_network : List String
from_network = network_names ++ from_display

-- The sections of the table.
pub data Section : Type 0 where
  mass_storage network display memory comms base_system input serial_bus wireless bridge : Section

-- The class that a section is for.
abbrev pub class_of : Section → ℕ
class_of mass_storage = 1
class_of network = 2
class_of display = 3
class_of memory = 5
class_of comms = 7
class_of base_system = 8
class_of input = 9
class_of serial_bus = 12
class_of wireless = 13
class_of bridge = 6

abbrev pub names_of : Section → List String
names_of mass_storage = mass_storage_names
names_of network = network_names
names_of display = display_names
names_of memory = memory_names
names_of comms = comms_names
names_of base_system = base_system_names
names_of input = input_names
names_of serial_bus = serial_bus_names
names_of wireless = wireless_names
names_of bridge = bridge_names

-- How far behind the section's start the code looks.
abbrev pub shift : Section → ℕ
shift comms = 1
shift base_system = 2
shift input = 1
shift _ = 0

-- For a device of the class of a section, with a subclass whose place in the section, shifted, is
-- still in it, the name is that of the shifted place: the next one for simple communications and
-- input devices, the one behind the next for base system peripherals, and the subclass's own for
-- every other section.
pub subclass_name-shifted :
    (dev : PciDevice) (section : Section)
    → class_code dev ≡ class_of section
    → subclass dev + shift section < length (names_of section)
    → subclass_name dev ≡ get_elem? (names_of section) (subclass dev + shift section)
unfolding section_offset
subclass_name-shifted dev mass_storage c h =
    named dev 1 0 c (omega arith) refl
    ∙ within [] mass_storage_names from_network (0 + subclass dev) (subclass dev + 0) (omega arith)
        h
subclass_name-shifted dev network c h =
    named dev 2 9 c (omega arith) refl
    ∙ within mass_storage_names network_names from_display (9 + subclass dev) (subclass dev + 0)
        (omega arith) h
subclass_name-shifted dev display c h =
    named dev 3 18 c (omega arith) refl
    ∙ within to_display display_names from_memory (18 + subclass dev) (subclass dev + 0)
        (omega arith) h
subclass_name-shifted dev memory c h =
    named dev 5 21 c (omega arith) refl
    ∙ within to_memory memory_names from_comms (21 + subclass dev) (subclass dev + 0) (omega arith)
        h
subclass_name-shifted dev comms c h =
    named dev 7 24 c (omega arith) refl
    ∙ within to_comms comms_names from_base_system (24 + subclass dev) (subclass dev + 1)
        (omega arith) h
subclass_name-shifted dev base_system c h =
    named dev 8 31 c (omega arith) refl
    ∙ within to_base base_system_names from_input (31 + subclass dev) (subclass dev + 2)
        (omega arith) h
subclass_name-shifted dev input c h =
    named dev 9 37 c (omega arith) refl
    ∙ within to_input input_names from_serial_bus (37 + subclass dev) (subclass dev + 1)
        (omega arith) h
subclass_name-shifted dev serial_bus c h =
    named dev 12 41 c (omega arith) refl
    ∙ within to_serial serial_bus_names from_wireless (41 + subclass dev) (subclass dev + 0)
        (omega arith) h
subclass_name-shifted dev wireless c h =
    named dev 13 51 c (omega arith) refl
    ∙ within to_wireless wireless_names bridge_names (51 + subclass dev) (subclass dev + 0)
        (omega arith) h
subclass_name-shifted dev bridge c h =
    named dev 6 58 c (omega arith) refl
    ∙ get_elem?-append_right to_bridge bridge_names (58 + subclass dev) (subclass dev + 0)
        (omega arith)
