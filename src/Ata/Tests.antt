-- ===== src/Ata/Tests.antt =====
-- The theorems on the drives at small simulated machines.
use tiny_bios.Prelude.{true, false, ◌≡◌, [], ◌∷◌, none}
use tiny_bios.Device.{status_present, device_access_mmio}
use tiny_bios.Port.{Hardware}
use tiny_bios.Port.Triples.{Any, Returns}
use tiny_bios.Port.Guards.{Guards}
use tiny_bios.Pci.{Entry, first_address}
use tiny_bios.Ata.{AtaBus, drive0, Granted, waitfor_status}
use tiny_bios.Ata.Controllers.{init_ata_controllers}
use tiny_bios.Ata.Select.{FirstOnly, init_ata_controllers-FirstOnly}
use tiny_bios.Ata.Wait.{settled, waitfor_status-Returns}

abbrev plenty : Granted
plenty request = true

-- An IDE controller in compatibility mode.
abbrev controller : Entry
controller = record {
  device_data = record {
    address = first_address;
    bist_executed = false;
    header = 0 ∷ 0 ∷ 0x01010000 ∷ 0 ∷ [];
  };
  status = status_present;
  type = device_access_mmio;
}

abbrev primary : AtaBus
primary = record {
  first_drive = none;
  second_drive = none;
  active_drive = drive0;
  base_addr = 0x1f0;
  dcr_addr = 0x3f6;
}

-- Busy and ready at once.
abbrev busy : Hardware
busy log width port = 0xc0

init_ata_controllers-FirstOnly_example :
    Guards FirstOnly Any (init_ata_controllers plenty (controller ∷ []))
init_ata_controllers-FirstOnly_example = init_ata_controllers-FirstOnly plenty (controller ∷ [])

waitfor_status-Returns_example :
    Returns
      (λ done after. done ≡ true → settled primary 0x40 true after ≡ true)
      (waitfor_status primary 0x40 true 50 busy [])
waitfor_status-Returns_example = waitfor_status-Returns primary 0x40 true 50 busy []
