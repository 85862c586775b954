-- ===== src/Cmos.antt =====
-- src/drivers/cmos/cmos.c with src/include/drivers/cmos/cmos.h: the real-time clock and the memory
-- sizes that the CMOS keeps.
pub mod MemoryMap
pub mod Clock
mod Tests
use tiny_bios.Prelude.{
  ℕ, zero, suc, ◌+◌, ◌-◌, ◌*◌, ◌/◌, ◌%◌, ◌^◌, bit_and, bit_or, ◌<<◌, Bool, true, false, ◌&&◌, ◌||◌,
  List, [], ◌∷◌, ◌++◌, get_or, ◌==◌, ◌!=◌, ltb, u8, u16, if◌then◌else◌,
}
use tiny_bios.Device.{DeviceStatus, status_faulty, status_initialised}
use tiny_bios.Port.{Cmd, pure, ◌>>=◌, ◌>>◌, inb, outb, iodelay, emit, interrupts, no_rounds_left}
use tiny_bios.Pic.{pic_unmask_irq}

abbrev pub register_addr : ℕ
register_addr = 0x70

abbrev pub data_addr : ℕ
data_addr = 0x71

abbrev pub rtc_month : ℕ
rtc_month = 8

abbrev pub rtc_status_update : ℕ
rtc_status_update = 0x0a

abbrev pub rtc_status_format : ℕ
rtc_status_format = 0x0b

-- `cmos_data`
pub record CmosData : Type 0 where
  pub delay : ℕ
  pub rtc_bcd_enabled : Bool
  pub rtc_12hr_enabled : Bool

unfoldable pub select_register : CmosData → ℕ → Cmd Unit
select_register cd reg = do outb reg register_addr; iodelay cd.delay

unfoldable pub cmos_read : CmosData → ℕ → Cmd ℕ
cmos_read cd reg = do select_register cd reg; inb data_addr

unfoldable pub cmos_write : CmosData → (v reg : ℕ) → Cmd Unit
cmos_write cd v reg = do select_register cd reg; outb v data_addr

unfoldable pub update_ongoing : CmosData → Cmd Bool
update_ongoing cd = do status ← cmos_read cd rtc_status_update; pure (bit_and status 0x80 != 0)

-- The empty `do` loop, which has no bound of its own: on fuel.
unfoldable pub wait_for_update : ℕ → CmosData → Cmd Unit
wait_for_update zero cd = no_rounds_left
wait_for_update (suc fuel) cd =
    let rest = wait_for_update fuel cd in
    do ongoing ← update_ongoing cd; if ongoing then rest else pure tt

unfoldable pub rtc_in_bcd_mode : ℕ → Bool
rtc_in_bcd_mode status = bit_and status 4 == 0

unfoldable pub rtc_in_12hr_mode : ℕ → Bool
rtc_in_12hr_mode status = bit_and status 2 == 0

-- The end of `cmos_init`, when two reads of the month agree.
unfoldable pub finish_init : CmosData → Cmd (DeviceStatus × CmosData)
finish_init cd = do
  stat ← cmos_read cd rtc_status_format
  pure (
    status_initialised,
    record cd {
      rtc_bcd_enabled = if rtc_in_bcd_mode stat then true else cd.rtc_bcd_enabled;
      rtc_12hr_enabled = if rtc_in_12hr_mode stat then true else cd.rtc_12hr_enabled;
    },
  )

-- The rounds of `cmos_init` that are left, at the delay of the data.
unfoldable pub init_loop : (fuel left : ℕ) → CmosData → Cmd (DeviceStatus × CmosData)
init_loop fuel zero cd = pure (status_faulty, cd)
init_loop fuel (suc left) cd =
    let rest = init_loop fuel left (record cd { delay = cd.delay + 1 }) in
    do
      wait_for_update fuel cd
      v ← cmos_read cd rtc_month
      if (v == 0) || ltb 0x12 v
          then rest
          else do again ← cmos_read cd rtc_month; if again == v then finish_init cd else rest

unfoldable pub cmos_init : ℕ → CmosData → Cmd (DeviceStatus × CmosData)
cmos_init fuel cd = init_loop fuel 0x500 (record cd { delay = 0 })

unfoldable pub rtc_enable_nmi : CmosData → Cmd Unit
rtc_enable_nmi cd = do
  emit (interrupts false)
  conf ← cmos_read cd 0x8b
  cmos_write cd (bit_or conf 0x40) 0x8b
  pic_unmask_irq 8
  emit (interrupts true)

unfoldable pub rtc_read : ℕ → CmosData → ℕ → Cmd ℕ
rtc_read fuel cd field = do wait_for_update fuel cd; cmos_read cd field

-- The loop of `cmos_read_timedate`: the bytes in the order that they are written, so many rounds at
-- most.
unfoldable pub timedate_loop : (fuel rounds rtc_off : ℕ) → CmosData → Cmd (List ℕ)
timedate_loop fuel zero rtc_off cd = pure []
timedate_loop fuel (suc rounds) rtc_off cd =
    if ltb rtc_off 9
    then (let off = if (rtc_off != 0) && ltb rtc_off 6 then rtc_off + 1 else rtc_off in
        do v ← rtc_read fuel cd off; vs ← timedate_loop fuel rounds (off + 1) cd; pure (v ∷ vs))
    else pure []

-- `timedate`
pub record TimeDate : Type 0 where
  pub second : ℕ
  pub minute : ℕ
  pub hour : ℕ
  pub day_of_week : ℕ
  pub day_of_month : ℕ
  pub year : ℕ

-- Nine rounds, since the offset grows in each.
unfoldable pub read_timedate : ℕ → CmosData → Cmd TimeDate
read_timedate fuel cd = do
  dst ← timedate_loop fuel 9 0 cd
  pure (record {
    second = get_or dst 0 0;
    minute = get_or dst 1 0;
    hour = get_or dst 2 0;
    day_of_week = get_or dst 3 0;
    day_of_month = get_or dst 4 0;
    year = get_or dst 5 0;
  })

unfoldable pub bcd_convert : ℕ → ℕ
bcd_convert bcd = u8 (bit_and bcd 0x0f + u8 bcd / 16 * 10)

-- `e820_e`
pub record MemoryEntry : Type 0 where
  pub addr : ℕ
  pub size : ℕ
  pub type : ℕ

abbrev pub add_entry : List MemoryEntry → (entry size type : ℕ) → List MemoryEntry
add_entry entries entry size type =
    entries ++ (record { addr = entry; size = size; type = type } ∷ [])

abbrev pub addr_past_isa_hole : ℕ
addr_past_isa_hole = 15 * (1024 * 1024)

-- The entries that `cmos_read_memory_info` adds for the two bytes that it read.
unfoldable pub add_memory : (low_kb high_kb : ℕ) → List MemoryEntry → List MemoryEntry
add_memory low_kb high_kb entries =
    let total = bit_or (high_kb << 14) (low_kb << 6) + 16 * 1024 in
    if ltb total 0xa0000
    then add_entry entries 0 total 1
    else (let rest = total - 0xa0000 in
        let two = add_entry (add_entry entries 0 0x0ffff 1) 0xa0000 0xfffff 3 in
        if ltb rest addr_past_isa_hole
        then add_entry two 0x100000 rest 1
        else (let three = add_entry two 0x10000 0x00efffff 1 in
            let four = add_entry three 0x00f00000 0x00ffffff 2 in
            add_entry four 0x01000000 (rest - 0x01000000) 1))

unfoldable pub read_memory_info : List MemoryEntry → Cmd (List MemoryEntry)
read_memory_info entries = do
  outb 0x30 register_addr
  low_kb ← inb data_addr
  outb 0x31 register_addr
  high_kb ← inb data_addr
  pure (add_memory low_kb high_kb entries)
