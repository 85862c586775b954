-- ===== src/Pci/Functions.antt =====
-- The end of the enumeration: the loop over the functions behind the scan of the first bus.
use tiny_bios.Prelude.{
  length, List, [], ℕ, zero, suc, ◌+◌, ◌%◌, ◌^◌, ◌≤◌, ◌<◌, ◌≡◌, refl, ap, ◌∙◌, arith, Bool, true,
  false, not, Option, ◌==◌, ◌!=◌, bit_and, u8, u32, Bool-cases, inl as is_true, inr as is_false,
  if◌then◌else◌,
}
use tiny_bios.Port.{Log, Hardware, Run, panicked, out_of_fuel, Cmd, pure, and_then}
use tiny_bios.Port.Triples.{Ends, Ends-mono, Ends-both, Ends-then, with_result, with_panic}
use tiny_bios.Pci.{
  ConfigAddress, word, Entry, Scan, Granted, pci_vid, pci_header_type, add_devices_from_bus,
  first_address, function_loop, enumerate_pci_buses,
}
use tiny_bios.Pci.Slots.{
  slots, answering, Recorded, Filled, length-answering, add_devices_from_bus-Filled,
}
use tiny_bios.Pci.Space.{Answers, read_lem}
use tiny_bios.Pci.Places.{SamePlace, scan-SamePlace}

-- Whether a function's first register shows a vendor.
unfoldable pub present : (ℕ → ℕ) → ConfigAddress → Bool
present space a = pci_vid (u32 (space (word a))) != 0xffff

-- A function of device 30 on the first bus.
abbrev pub last_device : ℕ → ConfigAddress
last_device f = record { offset = 0; function = f; device = 30; bus = 0; reserved = 0; enable = 1 }

-- The devices of the first bus: the numbers that answer, if the first one shows a vendor.
abbrev pub first_numbers : (ℕ → ℕ) → List ℕ
first_numbers space =
    if present space first_address then answering space (slots first_address) 31 0 else []

-- The array has exactly those devices, from its start on, and is as before behind them.
abbrev pub FirstBus : (ℕ → ℕ) → (ℕ → Option Entry) → ℕ × (ℕ → Option Entry) → Type 0
FirstBus space devices (count, array) =
    (count ≤ 31)
    × (count ≡ length (first_numbers space))
    × Recorded space (slots first_address) array 0 (first_numbers space)
    × ((i : ℕ) → count ≤ i → array i ≡ devices i)

-- The run does not return.
pub data Unfinished {A : Type 0} : Run A → Type 0 where
  at_panic : {log : Log} → Unfinished (panicked log)
  no_rounds : Unfinished out_of_fuel

Unfinished-bind :
    {A B : Type 0} {P : A → Type 0} (hw : Hardware) {r : Run A} (k : A → Cmd B)
    → Ends P r
    → ((a : A) (log : Log) → P a → Unfinished (k a hw log))
    → Unfinished (and_then hw r k)
Unfinished-bind hw k (with_result p) next = next _ _ p
Unfinished-bind hw k with_panic next = at_panic

probe_lem :
    (a : ConfigAddress)
    → SamePlace (last_device a.function) a
    → word (record a { function = (a.function + 1) % 2 ^ 3; offset = u8 0 })
      ≡ word (last_device ((a.function + 1) % 2 ^ 3))
unfolding word
probe_lem a h = omega (arith, h.device, h.bus, h.reserved, h.enable)

module _ (space : ℕ → ℕ) (hw : Hardware) (answers : Answers space hw) (granted : Granted) where
  absent_test : (x : ℕ) (b : Bool) → (x != 0xffff) ≡ b → (x == 0xffff) ≡ not b
  absent_test x true h = ground arith
  absent_test x false h = ground arith

  vid_lem :
      (a : ConfigAddress) (b : Bool)
      → SamePlace (last_device a.function) a
      → present space (last_device ((a.function + 1) % 2 ^ 3)) ≡ b
      → (pci_vid
            (u32 (space (word (record a { function = (a.function + 1) % 2 ^ 3; offset = u8 0 }))))
          == 0xffff)
        ≡ not b
  unfolding present
  vid_lem a b at h = rw (probe_lem a at) (absent_test _ b h)

  function_loop-Unfinished :
      ((f : ℕ) → f < 8 → present space (last_device f) ≡ true)
      → (fuel : ℕ) (devices : ℕ → Option Entry) (count : ℕ) (a current : ConfigAddress) (log : Log)
      → SamePlace (last_device a.function) a
      → Unfinished (function_loop granted fuel devices count a current hw log)
  unfolding function_loop
  function_loop-Unfinished all zero devices count a current log at = no_rounds
  function_loop-Unfinished all (suc fuel) devices count a current log at =
      rw
        (
          read_lem space hw answers (record a { function = (a.function + 1) % 2 ^ 3 }) 0 log,
          vid_lem a true at (all ((a.function + 1) % 2 ^ 3) (omega arith)),
        )
        (Unfinished-bind hw _ ((scan-SamePlace granted devices count _).always hw _) λ s log1 h.
          function_loop-Unfinished all fuel s.devices _ _ s.address log1 (record {
            function = refl;
            device = at.device;
            bus = at.bus;
            reserved = at.reserved;
            enable = at.enable;
          }))

  first_lem :
      (b : Bool)
      → present space first_address ≡ b
      → (pci_vid (u32 (space (word (record first_address { offset = u8 0 })))) == 0xffff) ≡ not b
  unfolding present
  first_lem b h = absent_test _ b h

  -- The header type of the host bridge, as it is read behind the first address.
  abbrev multifunction : Bool
  multifunction =
      bit_and (pci_header_type (u32 (space (word (record first_address { offset = 0x0c }))))) 0x80
      != 0

  -- On a machine whose first device has several functions, and whose device 30 has all eight, the
  -- enumeration does not return, on any fuel: its 3-bit counter is always below 8.
  pub enumerate_pci_buses-Unfinished :
      present space first_address ≡ true
      → multifunction ≡ true
      → ((f : ℕ) → f < 8 → present space (last_device f) ≡ true)
      → (fuel : ℕ) (devices : ℕ → Option Entry) (log : Log)
      → Unfinished (enumerate_pci_buses granted fuel devices hw log)
  unfolding enumerate_pci_buses
  enumerate_pci_buses-Unfinished there several all fuel devices log =
      rw
        (
          read_lem space hw answers first_address 0 log,
          first_lem true there,
          read_lem space hw answers first_address 0x0c _,
        )
        (Unfinished-bind hw _ ((scan-SamePlace granted devices 0 first_address).always hw _)
          λ s log1 h. rw several (
            function_loop-Unfinished all fuel s.devices _ _ _ log1 (record {
              function = refl;
              device = h.device;
              bus = h.bus;
              reserved = h.reserved;
              enable = h.enable;
            })))

  no_scan :
      (devices : ℕ → Option Entry)
      → present space first_address ≡ false
      → FirstBus space devices (0, devices)
  no_scan devices none = rw none (omega arith, refl, tt, λ i le. refl)

  after_scan :
      (devices : ℕ → Option Entry) (s : Scan)
      → present space first_address ≡ true
      → Filled space
          (slots first_address)
          (answering space (slots first_address) 31 0)
          (record { devices = devices; offset = 0; count = 0; address = first_address })
          s
      → FirstBus space devices (s.count, s.devices)
  after_scan devices s there f =
      let c = f.counted in
      let o = f.advanced in
      let few = length-answering space (slots first_address) 31 0 in
      rw there (omega arith, omega arith, f.recorded, λ i le. f.above i (omega arith))

  function_loop-stops :
      present space (last_device 1) ≡ false
      → (fuel : ℕ) (devices : ℕ → Option Entry) (count : ℕ) (a current : ConfigAddress) (log : Log)
      → SamePlace (last_device 0) a
      → Ends
          (λ r. r ≡ (count, devices))
          (function_loop granted (suc fuel) devices count a current hw log)
  unfolding function_loop
  function_loop-stops absent fuel devices count a current log at =
      rw
        (
          read_lem space hw answers (record a { function = (a.function + 1) % 2 ^ 3 }) 0 log,
          vid_lem a false
              (record {
                function = refl;
                device = at.device;
                bus = at.bus;
                reserved = at.reserved;
                enable = at.enable;
              })
              (ap (λ f. present space (last_device ((f + 1) % 2 ^ 3))) (at.function) ∙ absent),
        )
        (with_result refl)

  abbrev Scanned : (ℕ → Option Entry) → Scan → Type 0
  Scanned devices s =
      SamePlace (record first_address { device = 30 }) s.address
      × FirstBus space devices (s.count, s.devices)

  scanned :
      (devices : ℕ → Option Entry) (log : Log)
      → present space first_address ≡ true
      → Ends (Scanned devices) (add_devices_from_bus granted devices 0 first_address hw log)
  scanned devices log there =
      Ends-both ((scan-SamePlace granted devices 0 first_address).always hw log) (
        Ends-mono
          (add_devices_from_bus-Filled space hw answers granted devices 0 first_address log
            (omega arith))
          λ s f. after_scan devices s there f)

  -- What follows the scan of the first bus.
  Scanned-Ends :
      present space (last_device 1) ≡ false
      → (fuel : ℕ) (devices : ℕ → Option Entry) (s : Scan) (log : Log) → Scanned devices s
      → Ends (FirstBus space devices) (
          (if multifunction
              then function_loop granted (suc fuel) s.devices s.count s.address s.address
              else pure (s.count, s.devices))
            hw log)
  Scanned-Ends absent fuel devices s log h = elim (Bool-cases multifunction) [
    | is_true several ↦ rw several (
        Ends-mono
          (function_loop-stops absent fuel s.devices s.count s.address s.address log (record {
            function = h.0.function;
            device = h.0.device;
            bus = h.0.bus;
            reserved = h.0.reserved;
            enable = h.0.enable;
          }))
          λ r e. rw e h.1)
    | is_false single ↦ rw single (with_result h.1)
  ]

  -- On a machine whose device 30 has no function 1, the enumeration ends, with one round for the
  -- loop over the functions. If it returns, it has recorded, from the start of the array on, exactly
  -- the devices that answer at the numbers 0 to 30 of bus 0, function 0, in their order, each with its
  -- address, its header, its type and whether its self test is started, or none, if device 0 shows no
  -- vendor; the count is theirs, at most 31, and the array is as before from there on.
  pub enumerate_pci_buses-Ends :
      present space (last_device 1) ≡ false
      → (fuel : ℕ) (devices : ℕ → Option Entry) (log : Log)
      → Ends (FirstBus space devices) (enumerate_pci_buses granted (suc fuel) devices hw log)
  unfolding enumerate_pci_buses
  enumerate_pci_buses-Ends absent fuel devices log =
      rw (read_lem space hw answers first_address 0 log)
        (elim (Bool-cases (present space first_address)) [
          | is_false none ↦ rw (first_lem false none) (with_result (no_scan devices none))
          | is_true there ↦
              rw (first_lem true there, read_lem space hw answers first_address 0x0c _)
                (Ends-then hw _ (scanned devices _ there)
                  λ s log1 h. Scanned-Ends absent fuel devices s log1 h)
        ])
