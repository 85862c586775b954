-- ===== src/Startup/Critical.antt =====
-- What a return of `initialize_device` says of a device.
use Prim.Native.String.{String}
use tiny_bios.Prelude.{[], not, Bool, true, false, ◌≡◌, refl}
use tiny_bios.Device.{
  DeviceStatus, status_unknown, status_not_present, status_present, status_faulty,
  status_initialised,
}
use tiny_bios.Port.{Log, Hardware, Cmd, message}
use tiny_bios.Port.Triples.{
  Any, Ends, Ends-then, Ends-mono, Always, with_result, with_panic, Always-mono, Always-pure,
  Always-if, Always-bind, Always-emit, Always-panic,
}
use tiny_bios.Startup.{Device, zeroed, new_device, finish_device, initialize_device}

-- Where the structures are granted, the device is the cleared one.
pub new_device-zeroed :
    {D : Type 0} (granted data_granted : Bool) (zeros : D)
    → Always (λ dev. dev ≡ zeroed zeros) (new_device granted data_granted zeros)
unfolding new_device
new_device-zeroed granted data_granted zeros =
    Always-if (not granted) (Always-panic _)
      (Always-if (not data_granted) (Always-panic _) (Always-pure refl))

-- A device that the machine can go on with.
unfoldable pub usable : Bool → DeviceStatus → Bool
usable critical status_initialised = true
usable true _ = false
usable false _ = true

-- The device has its name, and it is usable.
abbrev pub Brought : {D : Type 0} → String → Bool → Device D → Type 0
Brought name critical after = (after.device_name ≡ name) × (usable critical after.status ≡ true)

finish_device-Always :
    {D : Type 0} (dev : Device D) (name : String) (critical : Bool) (status : DeviceStatus) (d : D)
    → Always
        (λ after. Brought name critical after × (after.status ≡ status) × (after.device_data ≡ d))
        (finish_device dev name critical status d)
unfolding finish_device usable
finish_device-Always dev name true status_initialised d = record {
  always = λ hw log. with_result ((refl, refl), refl, refl);
}
finish_device-Always dev name false status_initialised d = record {
  always = λ hw log. with_result ((refl, refl), refl, refl);
}
finish_device-Always dev name true status_unknown d = record { always = λ hw log. with_panic }
finish_device-Always dev name false status_unknown d = record {
  always = λ hw log. with_result ((refl, refl), refl, refl);
}
finish_device-Always dev name true status_not_present d = record { always = λ hw log. with_panic }
finish_device-Always dev name false status_not_present d = record {
  always = λ hw log. with_result ((refl, refl), refl, refl);
}
finish_device-Always dev name true status_present d = record { always = λ hw log. with_panic }
finish_device-Always dev name false status_present d = record {
  always = λ hw log. with_result ((refl, refl), refl, refl);
}
finish_device-Always dev name true status_faulty d = record { always = λ hw log. with_panic }
finish_device-Always dev name false status_faulty d = record {
  always = λ hw log. with_result ((refl, refl), refl, refl);
}

-- With a driver that ends on every machine, bringing a device up ends, and if it returns, the
-- device has its name, and it is initialised or it is not critical.
pub initialize_device-Brought :
    {D : Type 0} (init : D → Cmd (DeviceStatus × D)) (dev : Device D) (name : String)
    (critical : Bool)
    → ((d : D) → Always Any (init d))
    → Always (Brought name critical) (initialize_device init dev name critical)
unfolding initialize_device
initialize_device-Brought init dev name critical ends =
    Always-bind (Always-emit (message "Initializing %s... " [])) λ u h.
      Always-bind (Always-emit (message name [])) λ u' h'.
        Always-bind (ends dev.device_data) λ result r.
          Always-mono (finish_device-Always dev name critical result.0 result.1) λ after f. f.0

-- What the driver's result satisfies on a machine, the device's status and data do.
pub initialize_device-Ends :
    {D : Type 0} {P : DeviceStatus × D → Type 0} (init : D → Cmd (DeviceStatus × D))
    (dev : Device D) (name : String) (critical : Bool) (hw : Hardware)
    → ((log : Log) → Ends P (init dev.device_data hw log))
    → (log : Log)
    → Ends
        (λ after. P (after.status, after.device_data))
        (initialize_device init dev name critical hw log)
unfolding initialize_device
initialize_device-Ends {P} init dev name critical hw driver log =
    Ends-then hw _ (driver _) λ result log1 p.
      Ends-mono ((finish_device-Always dev name critical result.0 result.1).always hw log1)
        λ after f. rw (f.1, f.2) p
