-- ===== src/Boot/Uart.antt =====
-- The console while the firmware runs: `switch_output_device` of src/post.c makes `serial_tx` of
-- src/drivers/serial/serial.c its way to write, so each text waits for the line.
use Prim.Native.String.{String}
use tiny_bios.Prelude.{ℕ, suc, List, [], ◌∷◌, ◌≡◌, refl, ap, ◌∙◌, false, if◌then◌else◌, ◌==◌}
use tiny_bios.Port.{
  Log, Hardware, Run, ok, panicked, out_of_fuel, Cmd, pure, and_then, ◌>>◌, emit, wrote8, wrote16,
  wrote32, read8, read16, read32, delayed, interrupts, message,
}
use tiny_bios.Port.Triples.{Returns, returns, Returns-bind, Ends, with_result, with_panic}
use tiny_bios.Serial.{com_primary, serial_tx}
use tiny_bios.Serial.Transmit.{Extends, unchanged, wrote, polled, IsReady, serial_tx-Extends}
use tiny_bios.Cmos.{register_addr, data_addr}
use tiny_bios.Cmos.Clock.{selected, Serves}
use tiny_bios.Pci.{config_port, data_port}
use tiny_bios.Pci.Space.{Answers}

-- `characters` is what src/console.c makes of a text and its arguments.
module _ (fuel : ℕ) (characters : String → List ℕ → List ℕ) where
  -- What the processor really does for a log with texts: each is sent at its place, with so many
  -- rounds for each wait.
  unfoldable pub deliver : Hardware → Log → Run Unit
  deliver hw [] = ok tt []
  deliver hw (message text values ∷ log) =
      and_then hw (deliver hw log)
        (λ u. serial_tx fuel com_primary (characters text values) >> pure tt)
  deliver hw (e ∷ log) = and_then hw (deliver hw log) (λ u. emit e)

  abbrev answer : Hardware → Run Unit → (bits port : ℕ) → ℕ
  answer hw (ok u log) bits port = hw log bits port
  answer hw _ bits port = 0

  -- The machine as code meets it that hands texts to the console.
  unfoldable pub behind_console : Hardware → Hardware
  behind_console hw log bits port = answer hw (deliver hw log) bits port

  abbrev pub delivered : {A : Type 0} → Hardware → Run A → Run A
  delivered hw (ok a log) = and_then hw (deliver hw log) (λ u. pure a)
  delivered hw (panicked log) = and_then hw (deliver hw log) (λ u. λ hw' log'. panicked log')
  delivered hw out_of_fuel = out_of_fuel

  -- A run from reset whose texts go to the serial port.
  unfoldable pub over_uart : {A : Type 0} → Cmd A → Hardware → Run A
  over_uart m hw = delivered hw (m (behind_console hw) [])

selected-Extends :
    {port : ℕ} {log after : Log}
    → (port == register_addr) ≡ false
    → Extends port log after
    → selected after ≡ selected log
unfolding selected
selected-Extends apart unchanged = refl
selected-Extends apart (wrote h) = rw apart (selected-Extends apart h)
selected-Extends apart (polled h) = selected-Extends apart h

-- On a line that is always ready, one round for each wait is enough, and the register of the clock
-- that is selected stays.
module _ (waits : ℕ) (characters : String → List ℕ → List ℕ) (hw : Hardware)
    (ready : IsReady com_primary hw) where
  pub deliver-Returns :
      (log : Log)
      → Returns (λ u real. selected real ≡ selected log) (deliver (suc waits) characters hw log)
  unfolding deliver selected
  deliver-Returns [] = returns refl
  deliver-Returns (message text values ∷ log) = Returns-bind _ (deliver-Returns log) λ u real h.
      Returns-bind _ (serial_tx-Extends com_primary hw ready waits (characters text values) real)
        λ n after e. returns (selected-Extends refl e ∙ h)
  deliver-Returns (wrote8 v port ∷ log) =
      Returns-bind _ (deliver-Returns log)
        λ u real h. returns (ap (λ k. if port == register_addr then v else k) h)
  deliver-Returns (wrote16 v port ∷ log) =
      Returns-bind _ (deliver-Returns log) λ u real h. returns h
  deliver-Returns (wrote32 v port ∷ log) =
      Returns-bind _ (deliver-Returns log) λ u real h. returns h
  deliver-Returns (read8 v port ∷ log) = Returns-bind _ (deliver-Returns log) λ u real h. returns h
  deliver-Returns (read16 v port ∷ log) = Returns-bind _ (deliver-Returns log) λ u real h. returns h
  deliver-Returns (read32 v port ∷ log) = Returns-bind _ (deliver-Returns log) λ u real h. returns h
  deliver-Returns (delayed time ∷ log) = Returns-bind _ (deliver-Returns log) λ u real h. returns h
  deliver-Returns (interrupts on ∷ log) = Returns-bind _ (deliver-Returns log) λ u real h. returns h

  pub behind_console-Serves :
      (regs : ℕ → ℕ) → Serves regs hw → Serves regs (behind_console (suc waits) characters hw)
  unfolding behind_console
  behind_console-Serves regs serves = record {
    answers = λ log. at log (deliver-Returns log);
    bytes = serves.bytes;
    steady = serves.steady;
  }
    where
      at :
          (log : Log) {r : Run Unit}
          → Returns (λ u real. selected real ≡ selected log) r
          → answer (suc waits) characters hw r 8 data_addr ≡ regs (selected log)
      at log (returns h) = serves.answers _ ∙ ap regs h

  pub behind_console-Answers :
      (space : ℕ → ℕ) → Answers space hw → Answers space (behind_console (suc waits) characters hw)
  unfolding behind_console deliver
  behind_console-Answers space answers w log = at (deliver-Returns log)
    where
      at :
          {r : Run Unit}
          → Returns (λ u real. selected real ≡ selected log) r
          → answer
              (suc waits)
              characters
              hw
              (and_then hw r (λ u. emit (wrote32 w config_port)))
              32
              data_port
            ≡ space w
      at (returns h) = answers w _

  -- A run that ends on the machine behind the console ends when its texts are sent.
  pub over_uart-Ends :
      {A : Type 0} {P : A → Type 0} (m : Cmd A)
      → Ends P (m (behind_console (suc waits) characters hw) [])
      → Ends P (over_uart (suc waits) characters m hw)
  unfolding over_uart
  over_uart-Ends {P} m h = at h
    where
      returned :
          {A : Type 0} {P : A → Type 0} {Q : Unit → Log → Type 0} {r : Run Unit} (a : A)
          → Returns Q r
          → P a
          → Ends P (and_then hw r (λ u. pure a))
      returned a (returns q) p = with_result p

      gave_up :
          {A : Type 0} {P : A → Type 0} {Q : Unit → Log → Type 0} {r : Run Unit}
          → Returns Q r
          → Ends P (and_then {B = A} hw r (λ u. λ hw' log'. panicked log'))
      gave_up (returns q) = with_panic

      at :
          {A : Type 0} {P : A → Type 0} {r : Run A}
          → Ends P r
          → Ends P (delivered (suc waits) characters hw r)
      at (with_result {a} {log} p) = returned a (deliver-Returns log) p
      at (with_panic {log}) = gave_up (deliver-Returns log)
