-- ===== src/Kbdctl/Config.antt =====
-- What `kbdctl_set_default_init` makes of the configuration byte.
use tiny_bios.Prelude.{ℕ, zero, suc, ◌<◌, bit_and, Bool, true, ◌&&◌, ◌≡◌, ◌≢◌, refl, arith, ◌==◌}
use tiny_bios.Prelude.Bits.{all_below, all_below_sound}
use tiny_bios.Device.{DeviceStatus, status_unknown, status_faulty, status_initialised}
use tiny_bios.Port.Triples.{
  Any, Always, Always-pure, Always-if, Always-bind, Always-inb, Always-outb, Always-emit,
  Always-panic,
}
use tiny_bios.Kbdctl.{
  Ps2Status, data_port, stat_port, rounds, ready_loop, ctrl_rdy, send_cmd, recv_data_poll,
  send_data_poll, read_config, write_config, enable_a20line, do_self_test, default_config,
  finish_init, roll_back, configure, set_default_init,
}

-- Both interrupts and the translation are off, the system flag is on.
abbrev pub IsQuiet : ℕ → Type 0
IsQuiet config =
    (bit_and config 0x01 ≡ 0)
    × (bit_and config 0x02 ≡ 0)
    × (bit_and config 0x40 ≡ 0)
    × (bit_and config 0x04 ≡ 4)

quiet : ℕ → Bool
quiet config =
    ((bit_and config 0x01 == 0) && (bit_and config 0x02 == 0))
    && ((bit_and config 0x40 == 0) && (bit_and config 0x04 == 4))

-- The bits that are neither cleared nor set are those of the old byte.
quiet_table :
    all_below 256
      (λ i. quiet (default_config i) && (bit_and (default_config i) 0xb8 == bit_and i 0xb8))
    ≡ true
unfolding all_below quiet default_config
quiet_table = refl

default_config-IsQuiet :
    (i : ℕ)
    → i < 256
    → IsQuiet (default_config i) × (bit_and (default_config i) 0xb8 ≡ bit_and i 0xb8)
unfolding quiet
default_config-IsQuiet i h = ground (arith, all_below_sound 256 _ i quiet_table h)

ready_loop-Always : (left mask waitfor : ℕ) → Always Any (ready_loop left mask waitfor)
unfolding ready_loop
ready_loop-Always zero mask waitfor = Always-pure tt
ready_loop-Always (suc left) mask waitfor =
    Always-bind (Always-inb stat_port)
      λ stat h. Always-if _ (Always-pure tt) (ready_loop-Always left mask waitfor)

ctrl_rdy-Always : (waitfor : ℕ) → Always Any (ctrl_rdy waitfor)
unfolding ctrl_rdy
ctrl_rdy-Always waitfor = ready_loop-Always rounds _ waitfor

send_cmd-Always : (v : ℕ) → Always Any (send_cmd v)
unfolding send_cmd
send_cmd-Always v =
    Always-bind (ctrl_rdy-Always 0)
      λ ready h. Always-if _ (Always-pure tt) (Always-bind (Always-outb _ _) λ w h'. Always-pure tt)

send_data_poll-Always : (v : ℕ) → Always Any (send_data_poll v)
unfolding send_data_poll
send_data_poll-Always v =
    Always-bind (ctrl_rdy-Always 0)
      λ ready h. Always-if _ (Always-pure tt) (Always-bind (Always-outb _ _) λ w h'. Always-pure tt)

no_answer : 0xff < 256
no_answer = omega arith

recv_data_poll-Always : Always (λ v. v < 256) recv_data_poll
unfolding recv_data_poll
recv_data_poll-Always = Always-bind (ctrl_rdy-Always 1) λ ready h.
    Always-if _ (Always-bind (Always-emit _) λ w h'. Always-pure no_answer) (Always-inb data_port)

read_config-Always : Always (λ v. v < 256) read_config
unfolding read_config
read_config-Always =
    Always-bind (send_cmd-Always 0x20)
      λ sent h. Always-if _ (Always-pure no_answer) recv_data_poll-Always

write_config-Always : (v : ℕ) → Always Any (write_config v)
unfolding write_config
write_config-Always v = Always-bind (send_cmd-Always 0x60) λ sent h. Always-if _ (Always-pure tt) (
    Always-bind (send_data_poll-Always v) λ written h'.
      Always-if _ (Always-pure tt) (Always-bind read_config-Always λ t h''. Always-pure tt))

do_self_test-Always : Always Any do_self_test
unfolding do_self_test
do_self_test-Always = Always-bind (send_cmd-Always 0xaa) λ sent h.
    Always-if _ (Always-pure tt) (Always-bind recv_data_poll-Always λ stat h'. Always-pure tt)

enable_a20line-Always : Always Any enable_a20line
unfolding enable_a20line
enable_a20line-Always =
    Always-bind (send_cmd-Always 0xd1)
      λ sent h. Always-if _ (Always-pure tt) (send_data_poll-Always 0xdf)

-- What the initialisation leaves, given the byte that was read first.
abbrev pub Initialised : Ps2Status → DeviceStatus × Ps2Status → Type 0
Initialised before (result, after) =
    (result ≡ status_initialised → IsQuiet after.current_configuration)
    × (result ≢ status_initialised → after ≡ before)
    × (after.devices_initialised ≡ before.devices_initialised)

unknown-Initialised : (s : Ps2Status) → Initialised s (status_unknown, s)
unknown-Initialised s = (λ e. cc, λ ne. refl, refl)

faulty-Initialised : (s : Ps2Status) → Initialised s (status_faulty, s)
faulty-Initialised s = (λ e. cc, λ ne. refl, refl)

finish_init-Always :
    (s : Ps2Status) (initial : ℕ)
    → initial < 256
    → Always (Initialised s) (finish_init s initial (default_config initial))
unfolding finish_init
finish_init-Always s initial small = Always-bind enable_a20line-Always λ enabled h.
    Always-pure (λ e. (default_config-IsQuiet initial small).0, λ ne. absurd (ne refl), refl)

roll_back-Always : (s : Ps2Status) (initial : ℕ) → Always (Initialised s) (roll_back s initial)
unfolding roll_back
roll_back-Always s initial =
    Always-bind (write_config-Always initial)
      λ restored h. Always-if _ (Always-panic _) (Always-pure (faulty-Initialised s))

-- On any machine the initialisation ends. If it reports success, the configuration that it records
-- has both interrupts and the translation off and the system flag on; if it returns any other
-- status, the recorded state is the old one. It never changes the count of devices.
pub set_default_init-Initialised : (s : Ps2Status) → Always (Initialised s) (set_default_init s)
unfolding set_default_init configure
set_default_init-Initialised s = Always-bind read_config-Always λ initial small.
    Always-if _ (Always-bind (Always-emit _) λ w h. Always-pure (unknown-Initialised s)) (
      Always-bind (write_config-Always _) λ written h.
        Always-if _ (Always-pure (faulty-Initialised s)) (
          Always-bind do_self_test-Always λ passed h'.
            Always-if _ (finish_init-Always s initial small) (roll_back-Always s initial)))
