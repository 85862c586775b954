-- ===== src/Kbdctl/Handshake.antt =====
-- The handshake of the 8042: a byte is written to the controller only right after a status read
-- that shows its input buffer empty, and its data port is read only right after a status read
-- that shows its output buffer full.
use Prim.Native.String.{String}
use tiny_bios.Prelude.{
  ℕ, zero, suc, bit_and, Bool, true, false, ◌&&◌, ◌||◌, ◌≡◌, refl, arith, List, [], ◌∷◌, ◌==◌, ◌⊎◌,
  not, u8, if◌then◌else◌, Bool-cases, inl, inr,
}
use tiny_bios.Port.{Event, wrote8, read8, Log, Hardware, pure, ◌>>◌, inb, outb, blogf, panic}
use tiny_bios.Port.Triples.{
  Leaves, at_end, at_panic, Returns, returns, Keeps, Keeps-pure, Keeps-bind, Keeps-if, Keeps-after,
}
use tiny_bios.Kbdctl.{
  Ps2Status, data_port, stat_port, rounds, ready_loop, ctrl_rdy, send_cmd, recv_data_poll,
  send_data_poll, disable_ports, read_config, write_config, reset_now, reset_device, enable_a20line,
  do_self_test, test_device, finish_init, roll_back, configure, set_default_init, enable_second,
  enable_devices,
}

-- The newest event is a status read whose bits under the mask are as wanted.
unfoldable pub answered : (mask waitfor : ℕ) → Log → Bool
answered mask waitfor (read8 v port ∷ log) = (port == stat_port) && (bit_and v mask == waitfor)
answered mask waitfor _ = false

unfoldable pub allowed : Event → Log → Bool
unfolding answered
allowed (wrote8 v port) log =
    if (port == data_port) || (port == stat_port) then answered 2 0 log else true
allowed (read8 v port) log = if port == data_port then answered 1 1 log else true
allowed _ log = true

unfoldable pub polite : Log → Bool
unfolding allowed
polite [] = true
polite (e ∷ log) = allowed e log && polite log

abbrev pub Polite : Log → Type 0
Polite log = polite log ≡ true

-- What a poll leaves: its log is polite, and when it says ready, its last read was as wanted.
abbrev pub Polled : (mask waitfor : ℕ) → Bool → Log → Type 0
Polled mask waitfor ready log = Polite log × (ready ≡ true → answered mask waitfor log ≡ true)

module _ (hw : Hardware) where
  ready_loop-Returns :
      (left mask waitfor : ℕ) (log : Log)
      → Polite log
      → Returns (Polled mask waitfor) (ready_loop left mask waitfor hw log)
  unfolding ready_loop polite inb
  ready_loop-Returns zero mask waitfor log h = returns (h, λ e. cc)
  ready_loop-Returns (suc left) mask waitfor log h =
      elim (Bool-cases (bit_and (u8 (hw log 8 stat_port)) mask == waitfor)) [
        | inl hit ↦ rw hit (returns (h, λ e. hit))
        | inr miss ↦ rw miss (ready_loop-Returns left mask waitfor _ h)
      ]

  pub ctrl_rdy-write : (log : Log) → Polite log → Returns (Polled 2 0) (ctrl_rdy 0 hw log)
  unfolding ctrl_rdy
  ctrl_rdy-write log h = ready_loop-Returns rounds 2 0 log h

  pub ctrl_rdy-read : (log : Log) → Polite log → Returns (Polled 1 1) (ctrl_rdy 1 hw log)
  unfolding ctrl_rdy
  ctrl_rdy-read log h = ready_loop-Returns rounds 1 1 log h

-- After a poll for writing, either nothing is sent or the byte goes out at once.
write_after-Leaves :
    (v port : ℕ)
    → (port ≡ data_port) ⊎ (port ≡ stat_port)
    → (ready : Bool) (hw : Hardware) (log : Log) → Polled 2 0 ready log
    → Leaves Polite ((if not ready then pure false else do outb v port; pure true) hw log)
unfolding polite outb
write_after-Leaves v port which false hw log h = at_end h.0
write_after-Leaves v port which true hw log h = at_end (ground (arith, h.1 refl))

send_cmd-Keeps : (v : ℕ) → Keeps Polite (send_cmd v)
unfolding send_cmd
send_cmd-Keeps v = Keeps-after ctrl_rdy-write (write_after-Leaves v stat_port (inr refl))

send_data_poll-Keeps : (v : ℕ) → Keeps Polite (send_data_poll v)
unfolding send_data_poll
send_data_poll-Keeps v = Keeps-after ctrl_rdy-write (write_after-Leaves v data_port (inl refl))

read_after-Leaves :
    (ready : Bool) (hw : Hardware) (log : Log)
    → Polled 1 1 ready log
    → Leaves Polite (
        (if not ready
            then (do blogf "kbdctl_recv_data_poll timeout\n" []; pure 0xff)
            else inb data_port)
          hw log)
unfolding polite inb
read_after-Leaves false hw log h = at_end h.0
read_after-Leaves true hw log h = at_end (ground (arith, h.1 refl))

recv_data_poll-Keeps : Keeps Polite recv_data_poll
unfolding recv_data_poll
recv_data_poll-Keeps = Keeps-after ctrl_rdy-read read_after-Leaves

blogf-Keeps : (text : String) (values : List ℕ) → Keeps Polite (blogf text values)
unfolding polite
blogf-Keeps text values = record { keeps = λ hw log h. at_end h }

panic-Keeps : {A : Type 0} (text : String) → Keeps Polite (panic {A = A} text)
unfolding polite
panic-Keeps text = record { keeps = λ hw log h. at_panic h }

ruleset steps = (
  send_cmd-Keeps, send_data_poll-Keeps, recv_data_poll-Keeps, blogf-Keeps, panic-Keeps, Keeps-pure,
  Keeps-bind, Keeps-if,
)

pub disable_ports-Keeps : Keeps Polite disable_ports
unfolding disable_ports
disable_ports-Keeps = search steps

read_config-Keeps : Keeps Polite read_config
unfolding read_config
read_config-Keeps = search steps

write_config-Keeps : (v : ℕ) → Keeps Polite (write_config v)
unfolding write_config
write_config-Keeps v = search (steps, read_config-Keeps) depth 9

reset_now-Keeps : Keeps Polite reset_now
unfolding reset_now
reset_now-Keeps = search steps

pub reset_device-Keeps : (which : ℕ) → Keeps Polite (reset_device which)
unfolding reset_device
reset_device-Keeps which = search (steps, reset_now-Keeps) depth 7

enable_a20line-Keeps : Keeps Polite enable_a20line
unfolding enable_a20line
enable_a20line-Keeps = search steps

do_self_test-Keeps : Keeps Polite do_self_test
unfolding do_self_test
do_self_test-Keeps = search steps

pub test_device-Keeps : (dev_cmd : ℕ) → Keeps Polite (test_device dev_cmd)
unfolding test_device
test_device-Keeps dev_cmd = search steps depth 9

finish_init-Keeps : (s : Ps2Status) (initial new : ℕ) → Keeps Polite (finish_init s initial new)
unfolding finish_init
finish_init-Keeps s initial new = search (steps, enable_a20line-Keeps)

roll_back-Keeps : (s : Ps2Status) (initial : ℕ) → Keeps Polite (roll_back s initial)
unfolding roll_back
roll_back-Keeps s initial = search (steps, write_config-Keeps)

configure-Keeps : (s : Ps2Status) (initial new : ℕ) → Keeps Polite (configure s initial new)
unfolding configure
configure-Keeps s initial new =
    search (steps, write_config-Keeps, do_self_test-Keeps, finish_init-Keeps, roll_back-Keeps) depth
      9

pub set_default_init-Keeps : (s : Ps2Status) → Keeps Polite (set_default_init s)
unfolding set_default_init
set_default_init-Keeps s = search (steps, read_config-Keeps, configure-Keeps) depth 9

enable_second-Keeps : Keeps Polite enable_second
unfolding enable_second
enable_second-Keeps =
    search (steps, read_config-Keeps, write_config-Keeps, test_device-Keeps) depth 9

pub enable_devices-Keeps : (s : Ps2Status) → Keeps Polite (enable_devices s)
unfolding enable_devices
enable_devices-Keeps s =
    search (steps, read_config-Keeps, write_config-Keeps, test_device-Keeps, enable_second-Keeps)
      depth 12
