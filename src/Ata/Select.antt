-- ===== src/Ata/Select.antt =====
-- Which drives the driver addresses: bit 4 of the drive/head register is the drive's number.
use Prim.Native.String.{String}
use tiny_bios.Prelude.{
  ℕ, zero, suc, ◌/◌, ◌%◌, Bool, true, false, ◌&&◌, ◌||◌, bit_and, not, ◌≡◌, refl, arith, List, [],
  ◌∷◌, ◌==◌, if◌then◌else◌, Option, none, some,
}
use tiny_bios.Port.{Event, Log, wrote8, Cmd, pure, ◌>>=◌, inb, inw, outb, blogf, panic}
use tiny_bios.Port.Triples.{Any, Always}
use tiny_bios.Port.Guards.{
  Guards, returned, gave_up, Guards-pure, Guards-if, Guards-bind, Guards-Always,
}
use tiny_bios.Pci.{Entry}
use tiny_bios.Ata.{
  AtaBus, DriveId, DriveSelection, drive0, drive1, write_sector_count, write_lba_lo, write_lba_mi,
  write_lba_hi, write_drive_head, write_command, read_lba_mi, read_lba_hi, read_status,
  read_drive_address, no_drives_in_bus, waitfor_status, head_byte, select_drive, try_read_id,
  clear_sc_lba, identify_ata, identify_drive, read_words, AtaIde, Granted,
}
use tiny_bios.Ata.Controllers.{
  describe_drive, init_drive, init_second, init_first, init_bus, init_buses, init_all_buses,
  init_ide, init_controllers, init_ata_controllers, keep_ide,
}

-- The drive/head registers of the four buses.
unfoldable pub head_register : ℕ → Bool
head_register port = (port == 0x1f6) || ((port == 0x176) || ((port == 0x1ee) || (port == 0x16e)))

unfoldable pub allowed : Event → Bool
allowed (wrote8 v port) = if head_register port then v / 16 % 2 == 0 else true
allowed _ = true

unfoldable pub first_only : Log → Bool
first_only [] = true
first_only (e ∷ log) = allowed e && first_only log

abbrev pub FirstOnly : Log → Type 0
FirstOnly log = first_only log ≡ true

-- What a call that does not address a second drive keeps.
abbrev Kept : (Log → Type 0) → Type 0
Kept P = (e : Event) (log : Log) → allowed e ≡ true → P log → P (e ∷ log)

-- A command that ends on any machine and addresses first drives only.
pub record Safe {A : Type 0} (m : Cmd A) : Type 1 where
  pub safe : (P : Log → Type 0) → Kept P → Guards P Any m

module _ {A B : Type 0} where
  Safe-bind : {m : Cmd A} {k : A → Cmd B} → Safe m → ((a : A) → Safe (k a)) → Safe (m >>= k)
  Safe-bind h next = record {
    safe = λ P kept. Guards-bind (h.safe P kept) (λ a any. (next a).safe P kept);
  }

Safe-pure : {A : Type 0} (a : A) → Safe (pure a)
Safe-pure a = record { safe = λ P kept. Guards-pure tt }

Safe-if : {A : Type 0} (b : Bool) {m n : Cmd A} → Safe m → Safe n → Safe (if b then m else n)
Safe-if b h k = record { safe = λ P kept. Guards-if b (h.safe P kept) (k.safe P kept) }

Safe-outb : (v port : ℕ) → v / 16 % 2 ≡ 0 → Safe (outb v port)
unfolding outb first_only allowed
Safe-outb v port h = record {
  safe = λ P kept. record { guards = λ hw log i. returned (kept _ _ (ground arith) i) tt };
}

Safe-inb : (port : ℕ) → Safe (inb port)
unfolding inb first_only allowed
Safe-inb port = record {
  safe = λ P kept. record { guards = λ hw log i. returned (kept _ _ refl i) tt };
}

Safe-inw : (port : ℕ) → Safe (inw port)
unfolding inw first_only allowed
Safe-inw port = record {
  safe = λ P kept. record { guards = λ hw log i. returned (kept _ _ refl i) tt };
}

Safe-blogf : (text : String) (values : List ℕ) → Safe (blogf text values)
unfolding first_only allowed
Safe-blogf text values = record {
  safe = λ P kept. record { guards = λ hw log i. returned (kept _ _ refl i) tt };
}

Safe-panic : {A : Type 0} (text : String) → Safe (panic {A = A} text)
unfolding first_only allowed
Safe-panic text = record {
  safe = λ P kept. record { guards = λ hw log i. gave_up (kept _ _ refl i) };
}

ruleset steps = (Safe-bind, Safe-pure, Safe-if, Safe-inb, Safe-inw, Safe-blogf, Safe-panic)

read_status-Safe : (bus : AtaBus) → Safe (read_status bus)
unfolding read_status
read_status-Safe bus = Safe-inb _

waitfor_status-Safe :
    (bus : AtaBus) (mask : ℕ) (set : Bool) (wait : ℕ) → Safe (waitfor_status bus mask set wait)
unfolding waitfor_status
waitfor_status-Safe bus mask set zero = Safe-pure false
waitfor_status-Safe bus mask set (suc wait) = Safe-bind (read_status-Safe bus) λ reg.
    Safe-if (bit_and reg 1 == 1) (Safe-pure false) (
      Safe-if ((set && (bit_and reg mask == mask)) || (not set && (bit_and reg mask == 0)))
        (Safe-pure true) (waitfor_status-Safe bus mask set wait))

select_drive-Safe : (bus : AtaBus) (drive : DriveSelection) → Safe (select_drive bus drive)
unfolding select_drive write_drive_head read_drive_address head_byte
select_drive-Safe bus drive0 =
    Safe-if _ (Safe-pure _)
      (Safe-bind (Safe-outb _ _ refl) λ w. Safe-bind (Safe-inb _) λ reg. Safe-pure _)
select_drive-Safe bus drive1 =
    Safe-if _ (Safe-pure _)
      (Safe-bind (Safe-outb _ _ refl) λ w. Safe-bind (Safe-inb _) λ reg. Safe-pure _)

try_read_id-Safe : (bus : AtaBus) → Safe (try_read_id bus)
unfolding try_read_id read_lba_mi read_lba_hi
try_read_id-Safe bus = search steps

clear_sc_lba-Safe : (bus : AtaBus) → Safe (clear_sc_lba bus)
unfolding clear_sc_lba write_sector_count write_lba_lo write_lba_mi write_lba_hi
clear_sc_lba-Safe bus =
    Safe-bind (Safe-outb 0 _ refl) λ a.
      Safe-bind (Safe-outb 0 _ refl) λ b. Safe-bind (Safe-outb 0 _ refl) λ c. Safe-outb 0 _ refl

identify_ata-Safe : (bus : AtaBus) → Safe (identify_ata bus)
unfolding identify_ata
identify_ata-Safe bus = search (steps, waitfor_status-Safe, try_read_id-Safe) depth 12

identify_drive-Safe : (bus : AtaBus) → Safe (identify_drive bus)
unfolding identify_drive write_command
identify_drive-Safe bus = Safe-bind (clear_sc_lba-Safe bus) λ a.
    Safe-bind (Safe-outb 0xec _ refl)
      λ b. search (steps, try_read_id-Safe, identify_ata-Safe) depth 9

read_words-Safe : (left : ℕ) (bus : AtaBus) → Safe (read_words left bus)
unfolding read_words
read_words-Safe zero bus = Safe-pure []
read_words-Safe (suc left) bus =
    Safe-bind (Safe-inw _) λ w. Safe-bind (read_words-Safe left bus) λ ws. Safe-pure _

describe_drive-Safe :
    (granted : Granted) (bus : AtaBus) (id : DriveId) → Safe (describe_drive granted bus id)
unfolding describe_drive
describe_drive-Safe granted bus id = search (steps, read_words-Safe) depth 9

init_drive-Safe : (granted : Granted) (bus : AtaBus) → Safe (init_drive granted bus)
unfolding init_drive
init_drive-Safe granted bus = search (steps, identify_drive-Safe, describe_drive-Safe) depth 9

init_second-Safe : (granted : Granted) (bus : AtaBus) → Safe (init_second granted bus)
unfolding init_second
init_second-Safe granted bus = search (steps, select_drive-Safe, init_drive-Safe) depth 9

init_first-Safe : (granted : Granted) (bus : AtaBus) → Safe (init_first granted bus)
unfolding init_first
init_first-Safe granted bus = search (steps, select_drive-Safe, init_drive-Safe) depth 9

init_bus-Safe : (granted : Granted) (base dcr : ℕ) → Safe (init_bus granted base dcr)
unfolding init_bus no_drives_in_bus
init_bus-Safe granted base dcr = search (steps, init_second-Safe, init_first-Safe) depth 12

init_buses-Safe :
    (granted : Granted) (bases : List ℕ) (buses : List AtaBus)
    → Safe (init_buses granted bases buses)
unfolding init_buses
init_buses-Safe granted [] buses = Safe-pure buses
init_buses-Safe granted (base ∷ bases) buses =
    Safe-bind (init_bus-Safe granted base _) λ bus. init_buses-Safe granted bases _

init_ide-Safe : (granted : Granted) (at : ℕ) (dev : Entry) → Safe (init_ide granted at dev)
unfolding init_ide init_all_buses
init_ide-Safe granted at dev = search (steps, init_buses-Safe) depth 9

keep_ide-Safe :
    (granted : Granted) (count : ℕ) (ides : List AtaIde) (ide : Option AtaIde)
    → Safe (keep_ide granted count ides ide)
unfolding keep_ide
keep_ide-Safe granted count ides none = Safe-pure _
keep_ide-Safe granted count ides (some ide) = Safe-if _ (Safe-panic _) (Safe-pure _)

init_controllers-Safe :
    (granted : Granted) (devs : List Entry) (count : ℕ) (ides : List AtaIde)
    → Safe (init_controllers granted devs count ides)
unfolding init_controllers
init_controllers-Safe granted [] count ides = Safe-pure _
init_controllers-Safe granted (dev ∷ devs) count ides =
    Safe-if _ (init_controllers-Safe granted devs count ides) (
      Safe-bind (init_ide-Safe granted count _) λ ide.
        Safe-bind (keep_ide-Safe granted count ides ide)
          λ kept. init_controllers-Safe granted devs kept.0 kept.1)

-- Whatever the machine and the allocator answer, bringing up the controllers of any list of devices
-- ends, by a return or a panic, and all that it ever writes to the drive/head register of one of the
-- four buses, to select the second drive too, has the drive's bit off.
pub init_ata_controllers-FirstOnly :
    (granted : Granted) (devs : List Entry)
    → Guards FirstOnly Any (init_ata_controllers granted devs)
unfolding init_ata_controllers first_only
init_ata_controllers-FirstOnly granted devs =
    (init_controllers-Safe granted devs 0 []).safe FirstOnly λ e log ok i. rw ok i

-- It ends behind any log.
pub init_ata_controllers-Always :
    (granted : Granted) (devs : List Entry) → Always Any (init_ata_controllers granted devs)
unfolding init_ata_controllers
init_ata_controllers-Always granted devs =
    Guards-Always ((init_controllers-Safe granted devs 0 []).safe (λ log. Unit) λ e log ok i. tt)
