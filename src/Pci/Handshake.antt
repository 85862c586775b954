-- ===== src/Pci/Handshake.antt =====
-- How the configuration ports are used: the data port is accessed only right after an address dword
-- went out that is enabled and names a whole register.
use tiny_bios.Prelude.{
  ℕ, ◌%◌, ◌^◌, ◌≤◌, ◌+◌, ◌<◌, Bool, true, false, ◌&&◌, ◌≡◌, arith, [], ◌∷◌, ◌==◌, ltb, leb,
  if◌then◌else◌, Option, lt→ltb,
}
use tiny_bios.Port.{Event, Log, wrote32, read32}
use tiny_bios.Port.Triples.{Keeps}
use tiny_bios.Port.Guards.{Guards-Keeps}
use tiny_bios.Pci.{ConfigAddress, config_port, data_port, Entry, Granted, add_devices_from_bus}
use tiny_bios.Pci.Steps.{Enabled}
use tiny_bios.Pci.Devices.{scan_slots-Guards}

-- The newest event is the write of such an address.
unfoldable pub addressed : Log → Bool
addressed (wrote32 w port ∷ log) = (port == config_port) && (leb (2 ^ 31) w && (w % 4 == 0))
addressed _ = false

-- A value that is written to the data port moreover fits the low byte of the register.
unfoldable pub allowed : Event → Log → Bool
unfolding addressed
allowed (wrote32 v port) log = if port == data_port then addressed log && ltb v 256 else true
allowed (read32 v port) log = if port == data_port then addressed log else true
allowed _ log = true

unfoldable pub selected : Log → Bool
unfolding allowed
selected [] = true
selected (e ∷ log) = allowed e log && selected log

abbrev pub Selected : Log → Type 0
Selected log = selected log ≡ true

le→leb : (a b : ℕ) → a ≤ b → leb a b ≡ true
le→leb a b h = ground arith

reading :
    (w v : ℕ) (log : Log)
    → Enabled w
    → Selected log
    → Selected (read32 v data_port ∷ wrote32 w config_port ∷ log)
unfolding selected allowed addressed
reading w v log (on, whole) h = ground (arith, le→leb (2 ^ 31) w on)

writing :
    (w v : ℕ) (log : Log)
    → Enabled w
    → v < 256
    → Selected log
    → Selected (wrote32 v data_port ∷ wrote32 w config_port ∷ log)
unfolding selected allowed addressed
writing w v log (on, whole) small h = ground (arith, le→leb (2 ^ 31) w on, lt→ltb v 256 small)

-- Whatever the machine answers, a scan of a bus from an enabled address into an array with room for
-- 31 devices below index 256, ended by a panic or not, accesses the
-- configuration data only right after it wrote an enabled address of a whole register. What it
-- writes there, to start a self test, fits the low byte, so the register's byte 3, which holds the
-- self test's control bits, is written with 0.
pub add_devices_from_bus-Selected :
    (granted : Granted) (devices : ℕ → Option Entry) (offset : ℕ) (a : ConfigAddress)
    → offset + 31 < 256
    → a.enable ≡ 1
    → Keeps Selected (add_devices_from_bus granted devices offset a)
unfolding add_devices_from_bus selected allowed
add_devices_from_bus-Selected granted devices offset a room on = Guards-Keeps (
    scan_slots-Guards reading writing (λ t log i. i) granted 31 0 _ (omega arith) room (omega arith)
      on)
