-- ===== src/Pci/Slots.antt =====
-- Which devices a scan of a bus records, on a machine with a configuration space.
use tiny_bios.Prelude.{
  ◌/◌, ◌^◌, ℕ, zero, suc, ◌+◌, ◌≤◌, ◌<◌, ◌≡◌, refl, ap, ◌∙◌, arith, Bool, true, false, not, Option,
  some, List, [], ◌∷◌, ◌++◌, length, length-append, ◌==◌, u8, Bool-cases, inl, inr, if◌then◌else◌,
}
use mathlib.Core.Path.{subst}
use tiny_bios.Device.{status_present}
use tiny_bios.Port.{Log, Hardware}
use tiny_bios.Port.Triples.{Ends, Ends-then, Ends-mono, with_result, with_panic}
use tiny_bios.Pci.{
  ConfigAddress, Entry, Scan, Granted, put_entry, add_device, scan_slot, scan_slots,
  add_devices_from_bus,
}
use tiny_bios.Pci.Space.{
  Answers, reading, header_of, type_of, read_lem, read_header_lem, start_selftest_lem,
  dev_is_bridge_lem,
}
use tiny_bios.Pci.Devices.{put_entry-at, put_entry-off}

-- The functions that a scan from an address looks for: one for each device number of its bus.
abbrev pub slots : ConfigAddress → ℕ → ConfigAddress
slots a d = record a { device = d; offset = 0 }

-- An entry is the device of a function: its address, header, type and self test are the function's.
pub record IsDevice (space : ℕ → ℕ) (at : ConfigAddress) (e : Entry) : Type 0 where
  pub place : record (e.device_data.address) { offset = 0 } ≡ at
  pub header : e.device_data.header ≡ header_of space at
  -- bit 31 of the dword at 12 says that it has a self test, which is started
  pub tested : e.device_data.bist_executed ≡ (reading space at 12 / 2 ^ 31 == 1)
  pub status : e.status ≡ status_present
  pub type : e.type ≡ type_of space at

-- Whether a function answers: its first dword is not all ones.
abbrev pub answered : (ℕ → ℕ) → ConfigAddress → Bool
answered space at = not (reading space at 0 == 0xffffffff)

-- The numbers that answer, of those from `i` on, in their order.
abbrev pub answering : (ℕ → ℕ) → (ℕ → ConfigAddress) → (left i : ℕ) → List ℕ
answering space at zero i = []
answering space at (suc left) i =
    (if answered space (at i) then i ∷ [] else []) ++ answering space at left (i + 1)

-- From an index on, the array has the devices with these numbers, one after the other.
abbrev pub Recorded : (ℕ → ℕ) → (ℕ → ConfigAddress) → (ℕ → Option Entry) → ℕ → List ℕ → Type 0
Recorded space at devices i [] = Unit
Recorded space at devices i (d ∷ ds) =
    ((e : Entry) × (devices i ≡ some e) × IsDevice space (at d) e)
    × Recorded space at devices (i + 1) ds

-- From one state of a scan to a later one, exactly these devices are added.
pub record Filled (space : ℕ → ℕ) (at : ℕ → ConfigAddress) (ds : List ℕ) (s t : Scan) : Type 0 where
  pub recorded : Recorded space at t.devices s.offset ds
  pub counted : t.count ≡ s.count + length ds
  pub advanced : t.offset ≡ s.offset + length ds
  pub below : (i : ℕ) → i < s.offset → t.devices i ≡ s.devices i
  pub above : (i : ℕ) → t.offset ≤ i → t.devices i ≡ s.devices i
  pub same_bus : slots t.address ≡ at

module _ (space : ℕ → ℕ) (at : ℕ → ConfigAddress) where
  Recorded-kept :
      (devices later : ℕ → Option Entry) (i : ℕ) (ds : List ℕ)
      → ((j : ℕ) → i ≤ j → j < i + length ds → later j ≡ devices j)
      → Recorded space at devices i ds
      → Recorded space at later i ds
  Recorded-kept devices later i [] same r = tt
  Recorded-kept devices later i (d ∷ ds) same ((e, found, is), r) = (
    (e, same i (omega arith) (omega arith) ∙ found, is),
    Recorded-kept devices later (i + 1) ds (λ j le lt. same j (omega arith) (omega arith)) r,
  )

  Recorded-append :
      (devices : ℕ → Option Entry) (i j : ℕ) (ds es : List ℕ)
      → j ≡ i + length ds
      → Recorded space at devices i ds
      → Recorded space at devices j es
      → Recorded space at devices i (ds ++ es)
  Recorded-append devices i j [] es e r q = rw (← same) q
    where
      same : j ≡ i
      same = omega (arith, e)
  Recorded-append devices i j (d ∷ ds) es e (first, r) q =
      (first, Recorded-append devices (i + 1) j ds es (omega (arith, e)) r q)

  Filled-append :
      (ds es : List ℕ) (s t u : Scan)
      → Filled space at ds s t
      → Filled space at es t u
      → Filled space at (ds ++ es) s u
  Filled-append ds es s t u f g =
      let n = length-append ds es in
      let c = f.counted in
      let c' = g.counted in
      let o = f.advanced in
      let o' = g.advanced in
      record {
        recorded =
            Recorded-append u.devices s.offset t.offset ds es o
              (Recorded-kept t.devices u.devices s.offset ds (λ j le lt. g.below j (omega arith))
                f.recorded)
              g.recorded;
        counted = omega arith;
        advanced = omega arith;
        below = λ i lt. g.below i (omega arith) ∙ f.below i lt;
        above = λ i le. g.above i le ∙ f.above i (omega arith);
        same_bus = g.same_bus;
      }

  added_one :
      (s : Scan) (e : Entry) (d : ℕ) (a : ConfigAddress)
      → s.offset < 255
      → s.count < 255
      → IsDevice space (at d) e
      → slots a ≡ at
      → Filled space at (d ∷ []) s (record {
        devices = put_entry s.devices s.offset e;
        offset = u8 (s.offset + 1);
        count = u8 (s.count + 1);
        address = a;
      })
  added_one s e d a ho hc is bus = record {
    recorded = ((e, put_entry-at s.devices s.offset e, is), tt);
    counted = omega arith;
    advanced = omega arith;
    below = λ i lt. put_entry-off s.devices s.offset i e (λ eq. omega arith);
    above = λ i le. put_entry-off s.devices s.offset i e (λ eq. omega arith);
    same_bus = bus;
  }

  skipped_one :
      (s : Scan) (a : ConfigAddress)
      → slots a ≡ at
      → Filled space at [] s (record s { address = a })
  skipped_one s a bus = record {
    recorded = tt;
    counted = omega arith;
    advanced = omega arith;
    below = λ i lt. refl;
    above = λ i le. refl;
    same_bus = bus;
  }

pub length-answering :
    (space : ℕ → ℕ) (at : ℕ → ConfigAddress) (left i : ℕ)
    → length (answering space at left i) ≤ left
length-answering space at zero i = omega arith
length-answering space at (suc left) i = elim (Bool-cases (answered space (at i))) [
  | inl there ↦ rw there (omega (arith, length-answering space at left (i + 1)))
  | inr silent ↦ rw silent (omega (arith, length-answering space at left (i + 1)))
]

module _ (space : ℕ → ℕ) (hw : Hardware) (answers : Answers space hw) (granted : Granted) where
  add_device-Filled :
      (s : Scan) (i : ℕ) (log : Log)
      → s.offset < 255
      → s.count < 255
      → Ends
          (Filled space (slots s.address) (i ∷ []) s)
          (add_device granted s (slots s.address i) hw log)
  unfolding add_device
  add_device-Filled s i log ho hc = elim (Bool-cases (granted s.offset)) [
    | inr refused ↦ rw refused with_panic
    | inl given ↦ rw given (
        Ends-then hw _ (read_header_lem space hw answers _ log) λ dev log1 h.
          Ends-then hw _
            (start_selftest_lem space hw answers dev (slots s.address i) log1
              (ap (λ d. d.header) h))
            λ test log2 k.
              Ends-then hw _ (dev_is_bridge_lem space hw answers (slots s.address i) log2)
                λ bridge log3 l. with_result (
                  added_one space (slots s.address) s _ i bridge.1 ho hc
                    (record {
                      place = k.1 ∙ ap (λ d. record (d.address) { offset = 0 }) h;
                      header = k.0 ∙ ap (λ d. d.header) h;
                      tested = k.2;
                      status = refl;
                      type = l.0;
                    })
                    (ap slots (l.1))))
  ]

  scan_slot-Filled :
      (i : ℕ) (s : Scan) (log : Log)
      → s.offset < 255
      → s.count < 255
      → Ends
          (Filled space
            (slots s.address)
            (if answered space (slots s.address i) then i ∷ [] else [])
            s)
          (scan_slot granted i s hw log)
  unfolding scan_slot
  scan_slot-Filled i s log ho hc =
      rw (read_lem space hw answers (record s.address { device = i }) 0 log)
        (elim (Bool-cases (reading space (slots s.address i) 0 == 0xffffffff)) [
          | inl silent ↦ rw silent (with_result (skipped_one space (slots s.address) s _ refl))
          | inr there ↦
              rw (there, read_lem space hw answers (slots s.address i) 0 _, there)
                (add_device-Filled s i _ ho hc)
        ])

  scan_slot-at :
      (i : ℕ) (at : ℕ → ConfigAddress) (s : Scan) (log : Log)
      → s.offset < 255
      → s.count < 255
      → slots s.address ≡ at
      → Ends
          (Filled space at (if answered space (at i) then i ∷ [] else []) s)
          (scan_slot granted i s hw log)
  scan_slot-at i at s log ho hc bus =
      subst
        (λ (h : ℕ → ConfigAddress).
          Ends (Filled space h (if answered space (h i) then i ∷ [] else []) s)
            (scan_slot granted i s hw log))
        bus (scan_slot-Filled i s log ho hc)

  one_at_most : (b : Bool) (i : ℕ) → length (if b then i ∷ [] else []) ≤ 1
  one_at_most true i = omega arith
  one_at_most false i = omega arith

  scan_slots-Filled :
      (left i : ℕ) (at : ℕ → ConfigAddress) (s : Scan) (log : Log)
      → s.offset + left < 256
      → s.count + left < 256
      → slots s.address ≡ at
      → Ends (Filled space at (answering space at left i) s) (scan_slots granted left i s hw log)
  unfolding scan_slots
  scan_slots-Filled zero i at s log ho hc bus = with_result (skipped_one space at s s.address bus)
  scan_slots-Filled (suc left) i at s log ho hc bus =
      Ends-then hw _ (scan_slot-at i at s log (omega arith) (omega arith) bus) λ t log1 f.
        let few = one_at_most (answered space (at i)) i in
        Ends-mono
          (scan_slots-Filled left (i + 1) at t log1 (omega (arith, f.advanced, few))
            (omega (arith, f.counted, few)) f.same_bus)
          λ u g. Filled-append space at _ _ s t u f g

  -- On a machine with a configuration space, the scan of a bus into an array with room for 31 devices
  -- below index 256 ends. If it returns, it has added exactly the devices that answer at the numbers
  -- 0 to 30 of that bus and function, in their order, one at each of the next indices, as many as it
  -- has counted, each with its address, its header, its type and whether its self test is started, and
  -- nothing else in the array has changed.
  pub add_devices_from_bus-Filled :
      (devices : ℕ → Option Entry) (offset : ℕ) (a : ConfigAddress) (log : Log)
      → offset + 31 < 256
      → Ends
          (Filled space
            (slots a)
            (answering space (slots a) 31 0)
            (record { devices = devices; offset = offset; count = 0; address = a }))
          (add_devices_from_bus granted devices offset a hw log)
  unfolding add_devices_from_bus
  add_devices_from_bus-Filled devices offset a log room =
      scan_slots-Filled 31 0 (slots a) _ log room (omega arith) refl
