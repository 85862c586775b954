-- ===== src/Boot/Output.antt =====
-- What switching the output device leaves behind.
use Prim.Native.String.{String}
use tiny_bios.Prelude.{ℕ, List, [], Bool, true, ◌≡◌, refl, some}
use tiny_bios.Device.{DeviceStatus}
use tiny_bios.Port.{Cmd, message}
use tiny_bios.Port.Triples.{
  Any, Always, with_result, Always-pure, Always-if, Always-bind, Always-emit,
}
use tiny_bios.Startup.{Device, is_initialised}
use tiny_bios.Boot.{DefaultConsole, after_driver, bring_up, switch_output_device}

-- The switch is reported as done, and the default console is on, with the new way to write.
abbrev pub Switched : {D : Type 0} → (ℕ → List ℕ → Cmd ℕ) → Bool × DefaultConsole D → Type 0
Switched write_func (done, console) =
    (done ≡ true) × (console.enabled ≡ true) × (console.tx_func ≡ some write_func)

after_driver-Always :
    {D : Type 0} (name : String) (dev : Device D) (status : DeviceStatus) (d : D)
    → Always Any (after_driver name dev status d)
unfolding after_driver
after_driver-Always name dev status d =
    Always-bind
      (Always-if (is_initialised status) (Always-pure {P = Any} tt) (
        Always-bind (Always-emit (message "Failed to switch to output device %s\n" []))
          λ u h. Always-emit (message name [])))
      λ u h. Always-pure tt

bring_up-Always :
    {D : Type 0} (init_func : D → Cmd (DeviceStatus × D)) (name : String) (dev : Device D)
    → ((d : D) → Always Any (init_func d))
    → Always Any (bring_up init_func name dev)
unfolding bring_up
bring_up-Always init_func name dev ends =
    Always-if (is_initialised dev.status) (Always-pure tt)
      (Always-bind (ends dev.device_data) λ (status, d) h. after_driver-Always name dev status d)

-- With a driver that ends on every machine, switching the output ends, and whatever status the
-- driver reports, the switch is reported as done and the default console is enabled.
pub switch_output_device-Switched :
    {D : Type 0} (init_func : D → Cmd (DeviceStatus × D)) (write_func : ℕ → List ℕ → Cmd ℕ)
    (name : String) (dev : Device D)
    → ((d : D) → Always Any (init_func d))
    → Always (Switched write_func) (switch_output_device init_func write_func name dev)
unfolding switch_output_device
switch_output_device-Switched init_func write_func name dev ends =
    Always-bind (bring_up-Always init_func name dev ends)
      λ dev' h. record { always = λ hw log. with_result (refl, refl, refl) }
