-- ===== src/Pci/Places.antt =====
-- Where an address of the configuration space points after each operation, and that each ends.
use tiny_bios.Prelude.{ℕ, zero, suc, ◌+◌, ◌*◌, ◌≡◌, refl, ◌∙◌, arith, Option}
use tiny_bios.Port.{inl, outl}
use tiny_bios.Port.Triples.{
  with_result, Always, Any, Always-pure, Always-if, Always-bind, Always-mono, Always-panic,
}
use tiny_bios.Pci.{
  ConfigAddress, PciDevice, Entry, Scan, Granted, read_config, write_config, start_selftest,
  read_dwords, read_header, dev_is_bridge, add_device, scan_slot, scan_slots, add_devices_from_bus,
}

-- Two addresses of one function, at whatever register.
pub record SamePlace (a b : ConfigAddress) : Type 0 where
  pub function : b.function ≡ a.function
  pub device : b.device ≡ a.device
  pub bus : b.bus ≡ a.bus
  pub reserved : b.reserved ≡ a.reserved
  pub enable : b.enable ≡ a.enable

SamePlace-refl : (a : ConfigAddress) → SamePlace a a
SamePlace-refl a = record {
  function = refl;
  device = refl;
  bus = refl;
  reserved = refl;
  enable = refl;
}

pub SamePlace-trans : {a b c : ConfigAddress} → SamePlace a b → SamePlace b c → SamePlace a c
SamePlace-trans p q = record {
  function = q.function ∙ p.function;
  device = q.device ∙ p.device;
  bus = q.bus ∙ p.bus;
  reserved = q.reserved ∙ p.reserved;
  enable = q.enable ∙ p.enable;
}

pub read_config-SamePlace :
    (a : ConfigAddress) (off : ℕ) → Always (λ r. SamePlace a r.1) (read_config a off)
unfolding read_config inl outl
read_config-SamePlace a off = record {
  always = λ hw log.
      with_result
        (record { function = refl; device = refl; bus = refl; reserved = refl; enable = refl });
}

read_dwords-Always : (count reg : ℕ) (a : ConfigAddress) → Always Any (read_dwords count reg a)
unfolding read_dwords
read_dwords-Always zero reg a = Always-pure tt
read_dwords-Always (suc count) reg a =
    Always-bind (read_config-SamePlace a (reg * 4))
      λ first h. Always-bind (read_dwords-Always count (reg + 1) first.1) λ rest h'. Always-pure tt

read_header-Always : (dev : PciDevice) → Always Any (read_header dev)
unfolding read_header
read_header-Always dev =
    Always-bind (read_dwords-Always 4 0 dev.address)
      λ common h. Always-bind (read_dwords-Always _ 4 common.1) λ rest h'. Always-pure tt

start_selftest-Always : (dev : PciDevice) → Always Any (start_selftest dev)
unfolding start_selftest write_config outl
start_selftest-Always dev =
    Always-if _ (record { always = λ hw log. with_result tt }) (Always-pure tt)

dev_is_bridge-SamePlace : (a : ConfigAddress) → Always (λ r. SamePlace a r.1) (dev_is_bridge a)
unfolding dev_is_bridge
dev_is_bridge-SamePlace a = Always-bind (read_config-SamePlace a 8) λ r h. Always-pure h

module _ (granted : Granted) where
  add_device-SamePlace :
      (s : Scan) (a : ConfigAddress) → Always (λ t. SamePlace a t.address) (add_device granted s a)
  unfolding add_device
  add_device-SamePlace s a = Always-if _ (Always-panic _) (
      Always-bind (read_header-Always _) λ dev h.
        Always-bind (start_selftest-Always dev)
          λ test k. Always-bind (dev_is_bridge-SamePlace a) λ bridge l. Always-pure l)

  scan_slot-SamePlace :
      (i : ℕ) (s : Scan)
      → Always (λ t. SamePlace (record s.address { device = i }) t.address) (scan_slot granted i s)
  unfolding scan_slot
  scan_slot-SamePlace i s = Always-bind (read_config-SamePlace _ 0) λ first h.
      Always-if _ (Always-pure h) (
        Always-bind (read_config-SamePlace first.1 0) λ again k.
          Always-if _ (Always-pure (SamePlace-trans h k)) (
            Always-mono (add_device-SamePlace s again.1)
              λ t l. SamePlace-trans (SamePlace-trans h k) l))

  -- A scan leaves its address at the last device that it looked for.
  scan_slots-SamePlace :
      (left i : ℕ) (s : Scan)
      → Always
          (λ t. SamePlace (record s.address { device = i + left }) t.address)
          (scan_slots granted (suc left) i s)
  unfolding scan_slots
  scan_slots-SamePlace zero i s = Always-bind (scan_slot-SamePlace i s) λ t h. Always-pure (record {
    function = h.function;
    device = h.device ∙ omega arith;
    bus = h.bus;
    reserved = h.reserved;
    enable = h.enable;
  })
  scan_slots-SamePlace (suc left) i s = Always-bind (scan_slot-SamePlace i s) λ t h.
      Always-mono (scan_slots-SamePlace left (i + 1) t) λ u k. record {
        function = k.function ∙ h.function;
        device = k.device ∙ omega arith;
        bus = k.bus ∙ h.bus;
        reserved = k.reserved ∙ h.reserved;
        enable = k.enable ∙ h.enable;
      }

  pub scan-SamePlace :
      (devices : ℕ → Option Entry) (offset : ℕ) (a : ConfigAddress)
      → Always
          (λ t. SamePlace (record a { device = 30 }) t.address)
          (add_devices_from_bus granted devices offset a)
  unfolding add_devices_from_bus
  scan-SamePlace devices offset a = scan_slots-SamePlace 30 0 _
