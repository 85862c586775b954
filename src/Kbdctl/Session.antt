-- ===== src/Kbdctl/Session.antt =====
-- Sequences of calls of the keyboard controller's driver, in the order that a caller chooses.
use tiny_bios.Prelude.{ℕ, List, [], ◌∷◌}
use tiny_bios.Port.{Log, Hardware, Cmd, pure, ◌>>=◌}
use tiny_bios.Port.Triples.{Leaves, Keeps, Keeps-pure, Keeps-bind}
use tiny_bios.Kbdctl.{
  Ps2Status, disable_ports, reset_device, test_device, set_default_init, enable_devices,
}
use tiny_bios.Kbdctl.Handshake.{
  Polite, disable_ports-Keeps, reset_device-Keeps, test_device-Keeps, set_default_init-Keeps,
  enable_devices-Keeps,
}

pub data Request : Type 0 where
  init enable disable : Request
  reset test : ℕ → Request

-- `keyboard_controller_status`, and the data of the device structure, which are two objects.
pub record Controller : Type 0 where
  pub status : Ps2Status
  pub device_data : Ps2Status

unfoldable pub serve : Request → Controller → Cmd Controller
serve init c = do (_, s) ← set_default_init c.status; pure (record c { status = s })
serve enable c = do (_, s) ← enable_devices c.device_data; pure (record c { device_data = s })
serve disable c = do _ ← disable_ports; pure c
serve (reset which) c = do _ ← reset_device which; pure c
serve (test dev_cmd) c = do _ ← test_device dev_cmd; pure c

unfoldable pub session : List Request → Controller → Cmd Controller
session [] c = pure c
session (r ∷ rs) c = do c' ← serve r c; session rs c'

serve-Keeps : (r : Request) (c : Controller) → Keeps Polite (serve r c)
unfolding serve
serve-Keeps init c = Keeps-bind (set_default_init-Keeps c.status) (λ a. Keeps-pure _)
serve-Keeps enable c = Keeps-bind (enable_devices-Keeps c.device_data) (λ a. Keeps-pure _)
serve-Keeps disable c = Keeps-bind disable_ports-Keeps (λ a. Keeps-pure _)
serve-Keeps (reset which) c = Keeps-bind (reset_device-Keeps which) (λ a. Keeps-pure _)
serve-Keeps (test dev_cmd) c = Keeps-bind (test_device-Keeps dev_cmd) (λ a. Keeps-pure _)

session-Keeps : (rs : List Request) (c : Controller) → Keeps Polite (session rs c)
unfolding session
session-Keeps [] c = Keeps-pure c
session-Keeps (r ∷ rs) c = Keeps-bind (serve-Keeps r c) (λ c'. session-Keeps rs c')

-- Whatever the machine answers, any sequence of calls of the driver, ended by a panic or not,
-- keeps the handshake: it writes to the controller only right after a status read with the input
-- buffer empty, and reads its data port only right after a status read with the output buffer full.
pub session-Polite :
    (rs : List Request) (c : Controller) (hw : Hardware) (log : Log)
    → Polite log
    → Leaves Polite (session rs c hw log)
session-Polite rs c hw log h = (session-Keeps rs c).keeps hw log h
