-- ===== src/Boot/Posted.antt =====
-- What the whole start leaves behind, on a machine with a clock and a configuration space.
use tiny_bios.Prelude.{
  ℕ, suc, ◌+◌, ◌<◌, ◌^◌, ◌≡◌, refl, sym, ap, ◌∙◌, arith, [], ◌∷◌, Bool, true, false, Option, none,
  List, ◌==◌, ◌||◌, ltb, length, if◌then◌else◌,
}
use tiny_bios.Device.{DeviceStatus, status_initialised, status_faulty}
use tiny_bios.Memory.{Memory}
use tiny_bios.Port.{Log, Hardware, Cmd}
use tiny_bios.Port.Triples.{Any, Ends, Ends-then, Returns-Ends, with_result, Always}
use tiny_bios.Startup.{zeroed}
use tiny_bios.Startup.Critical.{new_device-zeroed, initialize_device-Ends}
use tiny_bios.Boot.Output.{Switched, switch_output_device-Switched}
use tiny_bios.Boot.Steps.{
  init_memory_map-Always, init_paging-Always, print_devtree-Always, new_devices-Always,
}
use tiny_bios.Serial.{SerialDevice, serial_tx, init_device}
use tiny_bios.Serial.Uart.{init_device-unset}
use tiny_bios.Cmos.{
  MemoryEntry, CmosData, rtc_status_format, rtc_in_bcd_mode, rtc_in_12hr_mode, cmos_init,
}
use tiny_bios.Cmos.Clock.{Serves, configured, cmos_init-Gives}
use tiny_bios.Pic.{no_words, pic_initialize}
use tiny_bios.Pic.Init.{pic_initialize-IsUp}
use tiny_bios.Kbdctl.{set_default_init}
use tiny_bios.Kbdctl.Config.{Initialised, set_default_init-Initialised}
use tiny_bios.Pit.{pit_init}
use tiny_bios.Pit.Channel.{pit_init-Returns}
use tiny_bios.Idt.Table.{IsTable}
use tiny_bios.Pci.{ConfigAddress, Entry, first_address}
use tiny_bios.Pci.Slots.{slots, Recorded}
use tiny_bios.Pci.Space.{Answers}
use tiny_bios.Pci.Functions.{
  first_numbers, present, last_device, FirstBus, enumerate_pci_buses-Ends,
}
use tiny_bios.Ata.Select.{init_ata_controllers-Always}
use tiny_bios.Boot.Sequence.{
  Allocations, Devices, Buses, Posted, no_keyboard, no_cmos, no_uart, initialize_devices,
  devices_from, scan_buses, post_and_init,
}

-- What the clock's driver leaves, by the month register: a month that is not one of the BCD numbers 1
-- to 12 is a fault; else bit 2 of the format register is off for BCD, and bit 1 for twelve hours.
abbrev pub clock_outcome : (regs : ℕ → ℕ) → DeviceStatus × CmosData
clock_outcome regs =
    if (regs 8 == 0) || ltb 0x12 (regs 8)
    then (
      status_faulty,
      record { delay = 0x500; rtc_bcd_enabled = false; rtc_12hr_enabled = false },
    )
    else (
      status_initialised,
      record {
        delay = 0;
        rtc_bcd_enabled = rtc_in_bcd_mode (regs rtc_status_format);
        rtc_12hr_enabled = rtc_in_12hr_mode (regs rtc_status_format);
      },
    )

-- The handlers behind another call of `add_interrupt_handler`.
abbrev pub with_handler : (entry handler : ℕ) → (ℕ → ℕ) → ℕ → ℕ
with_handler entry handler handlers v = if entry == v then handler else handlers v

abbrev TimerUp : ℕ → (ℕ → ℕ) → DeviceStatus × Memory → Type 0
TimerUp idt handlers (status, m) = (status ≡ status_initialised) × IsTable m idt handlers

-- The devices after their drivers.
pub record AreUp (regs : ℕ → ℕ) (idt : ℕ) (handlers : ℕ → ℕ) (d : Devices) : Type 0 where
  pub pic : d.programmable_interrupt_controller.status ≡ status_initialised
  pub keyboard :
      Initialised no_keyboard
        (d.keyboard_controller_device.status, d.keyboard_controller_device.device_data)
  pub clock : (d.cmos_dev.status, d.cmos_dev.device_data) ≡ clock_outcome regs
  pub timer : d.programmable_interrupt_timer.status ≡ status_initialised
  pub table : IsTable (d.programmable_interrupt_timer.device_data) idt handlers

-- The devices of the first bus alone are in the array, and all of them are printed and searched.
pub record AreScanned (space : ℕ → ℕ) (b : Buses) : Type 0 where
  pub first_bus : FirstBus space (λ _. none) (b.devcnt, b.pci_device_array)
  pub all_listed : length (devices_from b.devcnt 0 b.pci_device_array) ≡ b.devcnt

-- What `post_and_init` leaves.
pub record IsPosted (regs space : ℕ → ℕ) (fuel idt : ℕ) (handlers : ℕ → ℕ) (p : Posted)
    : Type 0 where
  pub on_uart : Switched (serial_tx fuel) (true, p.console)
  pub up : AreUp regs idt handlers p.devices
  pub scanned : AreScanned space p.buses

length-devices_from :
    (space : ℕ → ℕ) (at : ℕ → ConfigAddress) (array : ℕ → Option Entry) (ds : List ℕ) (i : ℕ)
    → Recorded space at array i ds
    → length (devices_from (length ds) i array) ≡ length ds
unfolding devices_from
length-devices_from space at array [] i r = refl
length-devices_from space at array (d ∷ ds) i ((e, found, is), r) =
    rw found (omega (arith, length-devices_from space at array ds (i + 1) r))

init_device-Always : (sdev : SerialDevice) → Always Any (init_device sdev)
init_device-Always sdev = record {
  always = λ hw log. Returns-Ends (init_device-unset sdev hw log) λ a l r. tt;
}

module _ (regs space : ℕ → ℕ) (hw : Hardware) (serves : Serves regs hw) where
  flag_lem : (b : Bool) → (if b then true else false) ≡ b
  flag_lem true = refl
  flag_lem false = refl

  outcome_lem :
      (if (regs 8 == 0) || ltb 0x12 (regs 8)
        then (status_faulty, record no_cmos { delay = 0x500 })
        else (status_initialised, configured regs hw serves no_cmos))
      ≡ clock_outcome regs
  outcome_lem = λ i.
      if (regs 8 == 0) || ltb 0x12 (regs 8)
      then (status_faulty, record no_cmos { delay = 0x500 })
      else (
        status_initialised,
        record {
          delay = 0;
          rtc_bcd_enabled = flag_lem (rtc_in_bcd_mode (regs rtc_status_format)) i;
          rtc_12hr_enabled = flag_lem (rtc_in_12hr_mode (regs rtc_status_format)) i;
        },
      )

  initialize_devices-Ends :
      (fuel idt handler : ℕ) (m : Memory) (handlers : ℕ → ℕ) (d : Devices) (log : Log)
      → handler < 2 ^ 64
      → IsTable m idt handlers
      → d.programmable_interrupt_controller ≡ zeroed no_words
      → d.cmos_dev ≡ zeroed no_cmos
      → d.keyboard_controller_device ≡ zeroed no_keyboard
      → d.programmable_interrupt_timer ≡ zeroed m
      → Ends
          (AreUp regs idt (with_handler 0x20 handler handlers))
          (initialize_devices (suc fuel) idt handler d hw log)
  unfolding initialize_devices
  initialize_devices-Ends fuel idt handler m handlers d log small t pic cmos kbd timer =
      rw (pic, cmos, kbd, timer)
        (Ends-then hw _
          (initialize_device-Ends {P = λ r. r.0 ≡ status_initialised} pic_initialize
            (zeroed no_words) "8259/PIC" false hw
            (λ l. Returns-Ends (pic_initialize-IsUp hw l) λ a l' r. r.0) log)
          λ d1 l1 h1.
            Ends-then hw _
              (initialize_device-Ends {P = Initialised no_keyboard} set_default_init
                (zeroed no_keyboard) "8042/PS2" false hw
                (λ l. (set_default_init-Initialised no_keyboard).always hw l) l1)
              λ d2 l2 h2.
                Ends-then hw _
                  (initialize_device-Ends {P = λ r. r ≡ clock_outcome regs} (cmos_init (suc fuel))
                    (zeroed no_cmos) "CMOS/RTC" false hw
                    (λ l.
                      Returns-Ends ((cmos_init-Gives regs hw serves fuel no_cmos).gives l)
                        λ a l' e. e ∙ outcome_lem)
                    l2)
                  λ d3 l3 h3.
                    Ends-then hw _
                      (initialize_device-Ends {P = TimerUp idt (with_handler 0x20 handler handlers)}
                        (pit_init idt handler) (zeroed m) "825X/PIT" false hw
                        (λ l.
                          Returns-Ends (pit_init-Returns idt handler m handlers hw l small t)
                            λ a l' r. (r.0, r.2))
                        l3)
                      λ d4 l4 h4. with_result (record {
                        pic = h1;
                        keyboard = h2;
                        clock = h3;
                        timer = h4.0;
                        table = h4.1;
                      }))

  all_listed_lem :
      (r : ℕ × (ℕ → Option Entry))
      → FirstBus space (λ _. none) r
      → length (devices_from (r.0) 0 (r.1)) ≡ r.0
  all_listed_lem (count, array) (few, counted, recorded, above) =
      ap (λ n. length (devices_from n 0 array)) counted
      ∙ length-devices_from space (slots first_address) array (first_numbers space) 0 recorded
      ∙ sym counted

  module _ (answers : Answers space hw) (absent : present space (last_device 1) ≡ false) where
    scan_buses-Ends :
        (fuel : ℕ) (al : Allocations) (log : Log)
        → Ends (AreScanned space) (scan_buses (suc fuel) al hw log)
    unfolding scan_buses
    scan_buses-Ends fuel al log =
        Ends-then hw _
          (enumerate_pci_buses-Ends space hw answers al.pci absent fuel (λ _. none) log)
          λ r l1 bus.
            Ends-then hw _ ((print_devtree-Always (devices_from (r.0) 0 (r.1))).always hw l1)
              λ u l2 h.
                Ends-then hw _
                  ((init_ata_controllers-Always al.ata (devices_from (r.0) 0 (r.1))).always hw l2)
                  λ ides l3 h'.
                    with_result (record { first_bus = bus; all_listed = all_listed_lem r bus })

    -- With a board that ends on every machine, the start ends on this one, with one round for the
    -- clock and for the functions.
    pub post_and_init-Ends :
        (fuel : ℕ) (al : Allocations) (board : List MemoryEntry → Cmd (Bool × List MemoryEntry))
        (idt handler : ℕ) (m : Memory) (handlers : ℕ → ℕ) (log : Log)
        → ((entries : List MemoryEntry) → Always Any (board entries))
        → handler < 2 ^ 64
        → IsTable m idt handlers
        → Ends
            (IsPosted regs space (suc fuel) idt (with_handler 0x20 handler handlers))
            (post_and_init (suc fuel) al board idt handler m hw log)
    unfolding post_and_init
    post_and_init-Ends fuel al board idt handler m handlers log ends small t =
        Ends-then hw _
          ((new_device-zeroed (al.device_granted 0) (al.data_granted 0) no_uart).always hw log)
          λ uart l1 h1.
            Ends-then hw _
              ((switch_output_device-Switched init_device (serial_tx (suc fuel)) "UART 1" uart
                  init_device-Always).always
                hw l1)
              λ console l2 h2.
                Ends-then hw _ ((new_devices-Always al m).always hw l2) λ fresh l3 h3.
                  Ends-then hw _ ((init_memory_map-Always board ends _).always hw l3) λ map l4 h4.
                    Ends-then hw _
                      ((init_paging-Always al.pte al.pdpt al.pml4 (map.1)).always hw l4)
                      λ paging l5 h5.
                        Ends-then hw _
                          (initialize_devices-Ends fuel idt handler m handlers _ l5 small t h3.1
                            h3.2 h3.3 h3.4)
                          λ up l6 h6. Ends-then hw _ (scan_buses-Ends fuel al l6) λ buses l7 h7.
                            with_result
                              (record { on_uart = (refl, h2.1, h2.2); up = h6; scanned = h7 })
