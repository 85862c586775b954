-- ===== src/Kbdctl/Tests.antt =====
-- The keyboard controller's theorems at a small simulated controller.
use tiny_bios.Prelude.{false, ◌≡◌, refl, [], ◌∷◌, ◌==◌, if◌then◌else◌}
use tiny_bios.Port.{Hardware}
use tiny_bios.Port.Triples.{Leaves, Always}
use tiny_bios.Kbdctl.{Ps2Status, default_config, set_default_init}
use tiny_bios.Kbdctl.Config.{Initialised, set_default_init-Initialised}
use tiny_bios.Kbdctl.Handshake.{Polite, polite}
use tiny_bios.Kbdctl.Session.{init, enable, disable, session, session-Polite}

abbrev fresh : Ps2Status
fresh = record {
  dual_channel = false;
  current_configuration = 0;
  devices_initialised = 0;
  a20line_enabled = false;
}

-- Always ready, with 0x77 for a configuration.
abbrev controller : Hardware
controller log width port = if port == 0x64 then 1 else 0x77

session-Polite_example : Leaves Polite (
    session
      (init ∷ enable ∷ disable ∷ [])
      (record { status = fresh; device_data = fresh })
      controller
      [])
unfolding polite
session-Polite_example =
    session-Polite (init ∷ enable ∷ disable ∷ []) (record { status = fresh; device_data = fresh })
      controller [] refl

set_default_init-Initialised_example : Always (Initialised fresh) (set_default_init fresh)
set_default_init-Initialised_example = set_default_init-Initialised fresh

-- An initial byte with everything on loses the interrupts and the translation.
default_config_of_all : default_config 0xff ≡ 0xbc
unfolding default_config
default_config_of_all = refl
