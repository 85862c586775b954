-- ===== src/Ata.antt =====
-- src/drivers/ata/ata.c and ata_util.c with src/include/drivers/ata/ata.h: the ATA drives, and the
-- ports of their buses. Ata/Controllers brings them up.
pub mod Controllers
pub mod Select
pub mod Wait
mod Tests
use tiny_bios.Prelude.{
  ℕ, zero, suc, ◌+◌, ◌*◌, ◌/◌, ◌%◌, ◌^◌, bit_and, bit_or, ◌<<◌, Bool, true, false, not, ◌&&◌, ◌||◌,
  List, [], ◌∷◌, ◌++◌, get_or, ◌==◌, ◌!=◌, u8, u16, if◌then◌else◌, Option, none, some,
}
use tiny_bios.Device.{device_access_pio}
use tiny_bios.Port.{Cmd, pure, ◌>>=◌, ◌>>◌, inb, inw, outb, blogf, panic}
use tiny_bios.Pci.{Entry, class_code, subclass, prog_if}

-- `ata_drive_id`
pub data DriveId : Type 0 where
  drive_id_not_ata drive_id_ata drive_id_sata drive_id_atapi : DriveId

-- `ata_drive_selection`
pub data DriveSelection : Type 0 where
  drive0 drive1 : DriveSelection

abbrev pub drive_number : DriveSelection → ℕ
drive_number drive0 = 0
drive_number drive1 = 1

-- `ata_drive`: the words that were read from the drive, if there was memory for them.
pub record AtaDrive : Type 0 where
  pub header : Option (List ℕ)
  pub drive_id : DriveId

-- `ata_bus`
pub record AtaBus : Type 0 where
  pub first_drive : Option AtaDrive
  pub second_drive : Option AtaDrive
  pub active_drive : DriveSelection
  pub base_addr : ℕ
  pub dcr_addr : ℕ

-- `ata_ide`, with the device that it stands for.
pub record AtaIde : Type 0 where
  pub iface : ℕ
  pub buses : List AtaBus
  pub ide_device_data : Entry

-- What the file asks the allocator for.
pub data Request : Type 0 where
  for_bus for_drive for_header for_model for_ide for_array : ℕ → Request

-- Whether the allocator grants a request, at the base address or count that it is made for.
abbrev pub Granted : Type 0
Granted = Request → Bool

unfoldable pub write_features : AtaBus → ℕ → Cmd Unit
write_features bus reg = outb reg (u16 (bus.base_addr + 1))

unfoldable pub write_sector_count : AtaBus → ℕ → Cmd Unit
write_sector_count bus reg = outb reg (u16 (bus.base_addr + 2))

unfoldable pub write_lba_lo : AtaBus → ℕ → Cmd Unit
write_lba_lo bus reg = outb reg (u16 (bus.base_addr + 3))

unfoldable pub write_lba_mi : AtaBus → ℕ → Cmd Unit
write_lba_mi bus reg = outb reg (u16 (bus.base_addr + 4))

unfoldable pub write_lba_hi : AtaBus → ℕ → Cmd Unit
write_lba_hi bus reg = outb reg (u16 (bus.base_addr + 5))

unfoldable pub write_drive_head : AtaBus → ℕ → Cmd Unit
write_drive_head bus reg = outb reg (u16 (bus.base_addr + 6))

unfoldable pub write_command : AtaBus → ℕ → Cmd Unit
write_command bus reg = outb reg (u16 (bus.base_addr + 7))

unfoldable pub read_error : AtaBus → Cmd ℕ
read_error bus = inb (u16 (bus.base_addr + 1))

unfoldable pub read_sector_count : AtaBus → Cmd ℕ
read_sector_count bus = inb (u16 (bus.base_addr + 2))

unfoldable pub read_lba_lo : AtaBus → Cmd ℕ
read_lba_lo bus = inb (u16 (bus.base_addr + 3))

unfoldable pub read_lba_mi : AtaBus → Cmd ℕ
read_lba_mi bus = inb (u16 (bus.base_addr + 4))

unfoldable pub read_lba_hi : AtaBus → Cmd ℕ
read_lba_hi bus = inb (u16 (bus.base_addr + 5))

unfoldable pub read_drive_head : AtaBus → Cmd ℕ
read_drive_head bus = inb (u16 (bus.base_addr + 6))

unfoldable pub read_status : AtaBus → Cmd ℕ
read_status bus = inb (u16 (bus.base_addr + 7))

unfoldable pub read_drive_address : AtaBus → Cmd ℕ
read_drive_address bus = inb (u16 (bus.dcr_addr + 1))

unfoldable pub no_drives_in_bus : ℕ → Cmd Bool
no_drives_in_bus port = do reg ← inb port; pure (reg == 0xff)

unfoldable pub bus_reset : AtaBus → Cmd Unit
bus_reset bus = do outb 6 bus.dcr_addr; outb 2 bus.dcr_addr

-- As many reads as `wait` says, at most.
unfoldable pub waitfor_status : AtaBus → (mask : ℕ) → (set : Bool) → (wait : ℕ) → Cmd Bool
waitfor_status bus mask set zero = pure false
waitfor_status bus mask set (suc wait) =
    let rest = waitfor_status bus mask set wait in
    do
      reg ← read_status bus
      if bit_and reg 1 == 1
          then pure false
          else (if (set && (bit_and reg mask == mask)) || (not set && (bit_and reg mask == 0))
              then pure true
              else rest)

abbrev pub same_drive : DriveSelection → DriveSelection → Bool
same_drive drive0 drive0 = true
same_drive drive1 drive1 = true
same_drive _ _ = false

-- The bit field `drive_selection` is bit 3 of the drive/head register.
unfoldable pub head_byte : DriveSelection → ℕ
head_byte drive = bit_or (bit_and 0xa0 0xf7) (drive_number drive << 3)

-- The result says whether the drive is selected; the bus comes back.
unfoldable pub select_drive : AtaBus → DriveSelection → Cmd (Bool × AtaBus)
select_drive bus drive = if same_drive bus.active_drive drive then pure (true, bus) else do
  write_drive_head bus (head_byte drive)
  reg ← read_drive_address bus
  let select_err = bit_and reg (2 ^ drive_number drive) != 0
  pure (not select_err, if select_err then bus else record bus { active_drive = drive })

unfoldable pub try_read_id : AtaBus → Cmd ℕ
try_read_id bus = do mi ← read_lba_mi bus; hi ← read_lba_hi bus; pure (bit_or (u16 (mi << 8)) hi)

unfoldable pub clear_sc_lba : AtaBus → Cmd Unit
clear_sc_lba bus = do
  write_sector_count bus 0
  write_lba_lo bus 0
  write_lba_mi bus 0
  write_lba_hi bus 0

-- The second half of `ata_identify_drive`: the mask of its first wait is 0.
unfoldable pub identify_ata : AtaBus → Cmd DriveId
identify_ata bus = do
  settled ← waitfor_status bus 0 false 50
  if not settled then pure drive_id_not_ata else do
    id ← try_read_id bus
    if id != 0 then pure drive_id_not_ata else do
      drive_ready ← waitfor_status bus 0x40 true 50
      pure (if drive_ready then drive_id_ata else drive_id_not_ata)

unfoldable pub identify_drive : AtaBus → Cmd DriveId
identify_drive bus = do
  clear_sc_lba bus
  write_command bus 0xec
  id ← try_read_id bus
  if id == 0x3cc3
      then pure drive_id_sata
      else (if id == 0x14eb then pure drive_id_atapi else identify_ata bus)

unfoldable pub read_words : ℕ → AtaBus → Cmd (List ℕ)
read_words zero bus = pure []
read_words (suc left) bus = do w ← inw bus.base_addr; ws ← read_words left bus; pure (w ∷ ws)

-- The characters of the model: `model` is the 20 words from word 27 on, each high byte first.
unfoldable pub model_characters : (left word : ℕ) → List ℕ → List ℕ
model_characters zero word header = []
model_characters (suc left) word header =
    get_or header word 0 / 2 ^ 8
    ∷ get_or header word 0 % 2 ^ 8
    ∷ model_characters left (word + 1) header
