-- ===== src/Pci/Devices.antt =====
-- What a scan of a bus by `pci_add_devices_from_bus` adds to the array of devices.
use Prim.Native.String.{String}
use tiny_bios.Prelude.{
  ltb, ltb→lt, ◌≢◌, ap, ◌∙◌, ℕ, zero, suc, ◌+◌, ◌≤◌, ◌<◌, Option, some, ◌≡◌, refl, arith, length,
  Bool-cases, inl, inr, u8, [], ◌∷◌,
}
use tiny_bios.Device.{status_present}
use tiny_bios.Port.{Log, read32, wrote32, message}
use tiny_bios.Port.Triples.{Always}
use tiny_bios.Port.Guards.{
  Guards, Guards-pure, Guards-if, Guards-bind, Guards-mono, Guards-panic, Guards-Always,
}
use tiny_bios.Pci.{
  ConfigAddress, config_port, data_port, Entry, Scan, Granted, put_entry, add_device, scan_slot,
  scan_slots, add_devices_from_bus,
}
use tiny_bios.Pci.Steps.{
  Enabled, read_config-Guards, read_header-Guards, start_selftest-Guards, dev_is_bridge-Guards,
}

-- An entry that a scan may have made: its status, a number below 31, and at least 15 dwords of a
-- header.
abbrev pub Found : (ℕ → Option Entry) → ℕ → Type 0
Found devices i =
    (e : Entry) × (devices i ≡ some e)
    × (e.status ≡ status_present)
    × (e.device_data.address.device < 31)
    × (15 ≤ length e.device_data.header)

-- From one state of a scan to a later one, at most `n` devices on: the array is filled from the
-- old index up to the new one and is as before elsewhere.
pub record Grown (n : ℕ) (s t : Scan) : Type 0 where
  pub at_most : t.count ≤ s.count + n
  pub at_least : s.count ≤ t.count
  pub counted : t.offset + s.count ≡ s.offset + t.count
  pub found : (i : ℕ) → s.offset ≤ i → i < t.offset → Found t.devices i
  pub below : (i : ℕ) → i < s.offset → t.devices i ≡ s.devices i
  pub above : (i : ℕ) → t.offset ≤ i → t.devices i ≡ s.devices i
  pub enabled : t.address.enable ≡ 1

skipped :
    {n : ℕ} (s : Scan) (a : ConfigAddress) → a.enable ≡ 1 → Grown n s (record s { address = a })
skipped s a on = record {
  at_most = omega arith;
  at_least = omega arith;
  counted = omega arith;
  found = λ i h k. absurd (omega arith);
  below = λ i h. refl;
  above = λ i h. refl;
  enabled = on;
}

Grown-trans : {n : ℕ} {s t u : Scan} → Grown 1 s t → Grown n t u → Grown (suc n) s u
Grown-trans {s} {t} {u} g h =
    let p = g.at_most in
    let q = h.at_most in
    let p' = g.at_least in
    let q' = h.at_least in
    let r = g.counted in
    let r' = h.counted in
    record {
      at_most = omega arith;
      at_least = omega arith;
      counted = omega arith;
      found = λ i lo hi. elim (Bool-cases (ltb i t.offset)) [
        | inl old ↦
            let (e, at, status, number, long) = g.found i lo (ltb→lt i t.offset old) in
            (e, h.below i (ltb→lt i t.offset old) ∙ at, status, number, long)
        | inr new ↦ h.found i (ground arith) hi
      ];
      below = λ i lt. h.below i (omega arith) ∙ g.below i lt;
      above = λ i le. h.above i le ∙ g.above i (omega arith);
      enabled = h.enabled;
    }

pub put_entry-at :
    (devices : ℕ → Option Entry) (at : ℕ) (e : Entry) → put_entry devices at e at ≡ some e
unfolding put_entry
put_entry-at devices at e = ground arith

pub put_entry-off :
    (devices : ℕ → Option Entry) (at i : ℕ) (e : Entry)
    → i ≢ at
    → put_entry devices at e i ≡ devices i
unfolding put_entry
put_entry-off devices at i e ne = ground arith

added :
    (s : Scan) (e : Entry) (a : ConfigAddress)
    → s.offset < 255
    → s.count < 255
    → e.status ≡ status_present
    → e.device_data.address.device < 31
    → 15 ≤ length e.device_data.header
    → a.enable ≡ 1
    → Grown 1 s (record {
      devices = put_entry s.devices s.offset e;
      offset = u8 (s.offset + 1);
      count = u8 (s.count + 1);
      address = a;
    })
added s e a ho hc status number long on = record {
  at_most = omega arith;
  at_least = omega arith;
  counted = omega arith;
  found = λ i lo hi.
      let same : i ≡ s.offset = omega arith in
      (
        e,
        ap (put_entry s.devices s.offset e) same ∙ put_entry-at s.devices s.offset e,
        status,
        number,
        long,
      );
  below = λ i h. put_entry-off s.devices s.offset i e (λ eq. omega arith);
  above = λ i h. put_entry-off s.devices s.offset i e (λ eq. omega arith);
  enabled = on;
}

module _ {I : Log → Type 0}
    (reading : (w v : ℕ) (log : Log)
      → Enabled w
      → I log
      → I (read32 v data_port ∷ wrote32 w config_port ∷ log))
    (writing : (w v : ℕ) (log : Log)
      → Enabled w
      → v < 256
      → I log
      → I (wrote32 v data_port ∷ wrote32 w config_port ∷ log))
    (telling : (text : String) (log : Log) → I log → I (message text [] ∷ log))
    (granted : Granted) where
  add_device-Guards :
      (s : Scan) (a : ConfigAddress)
      → s.offset < 255
      → s.count < 255
      → a.enable ≡ 1
      → a.device < 31
      → Guards I (Grown 1 s) (add_device granted s a)
  unfolding add_device
  add_device-Guards s a ho hc on small = Guards-if _ (Guards-panic _ (telling _)) (
      Guards-bind (read_header-Guards reading writing _ on) λ dev h.
        Guards-bind (start_selftest-Guards reading writing dev h.1.0) λ test k.
          Guards-bind (dev_is_bridge-Guards reading writing a on) λ bridge l. Guards-pure (
            added s _ bridge.1 ho hc refl (omega (arith, h, k)) (omega (arith, h, k, ap length k.0))
              l.0))

  scan_slot-Guards :
      (i : ℕ) (s : Scan)
      → i < 31
      → s.offset < 255
      → s.count < 255
      → s.address.enable ≡ 1
      → Guards I (Grown 1 s) (scan_slot granted i s)
  unfolding scan_slot
  scan_slot-Guards i s small ho hc on =
      Guards-bind (read_config-Guards reading writing _ 0 on refl) λ first h.
        Guards-if _ (Guards-pure (skipped s first.1 h.0)) (
          Guards-bind (read_config-Guards reading writing first.1 0 h.0 refl) λ again k.
            Guards-if _ (Guards-pure (skipped s again.1 k.0))
              (add_device-Guards s again.1 ho hc k.0 (omega (arith, h, k))))

  pub scan_slots-Guards :
      (left i : ℕ) (s : Scan)
      → i + left ≤ 31
      → s.offset + left < 256
      → s.count + left < 256
      → s.address.enable ≡ 1
      → Guards I (Grown left s) (scan_slots granted left i s)
  unfolding scan_slots
  scan_slots-Guards zero i s small ho hc on = Guards-pure (skipped s s.address on)
  scan_slots-Guards (suc left) i s small ho hc on =
      Guards-bind (scan_slot-Guards i s (omega arith) (omega arith) (omega arith) on) λ t g.
        Guards-mono
          (scan_slots-Guards left (i + 1) t (omega arith) (omega (arith, g.at_most, g.counted))
            (omega (arith, g.at_most)) g.enabled)
          λ u h. Grown-trans g h

-- On any machine, the scan of a bus from an enabled address into an array with room for 31 devices
-- below index 256 ends. If it returns, there is such an entry at each of the next `count` indices, at
-- most 31, and the array is as before elsewhere.
pub add_devices_from_bus-Grown :
    (granted : Granted) (devices : ℕ → Option Entry) (offset : ℕ) (a : ConfigAddress)
    → offset + 31 < 256
    → a.enable ≡ 1
    → Always
        (Grown 31 (record { devices = devices; offset = offset; count = 0; address = a }))
        (add_devices_from_bus granted devices offset a)
unfolding add_devices_from_bus
add_devices_from_bus-Grown granted devices offset a room on = Guards-Always (
    scan_slots-Guards (λ w v log h i. tt) (λ w v log h k i. tt) (λ t log i. tt) granted 31 0 _
      (omega arith) room (omega arith) on)
