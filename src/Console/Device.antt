-- ===== src/Console/Device.antt =====
-- The default console device, and formatted output over the serial port.
use tiny_bios.Prelude.{
  ℕ, suc, ◌+◌, ◌*◌, ◌<◌, ◌^◌, ◌≡◌, refl, sym, ap, ◌∙◌, Bool, true, Option, some, none, List, [],
  ◌∷◌, ◌++◌, length,
}
use tiny_bios.Memory.{Memory}
use tiny_bios.Port.{Log, Hardware, Cmd, pure, ◌>>◌, no_rounds_left}
use tiny_bios.Port.Triples.{Returns, returns, Returns-bind, Returns-mono}
use tiny_bios.Serial.{serial_tx}
use tiny_bios.Serial.Transmit.{sent, after_message, IsReady, serial_tx-Returns}
use tiny_bios.Console.{Calls, vfblogf}
use tiny_bios.Console.Texts.{Holds}
use tiny_bios.Console.Pieces.{Piece, format_of, all_arguments, all_calls, all_counted, AllProper}
use tiny_bios.Console.Format.{vfblogf_lem}

-- `console_device`; the base port is the one of the `serial_uart_device` that `dev` points at.
pub record ConsoleDevice : Type 0 where
  pub base_port : ℕ
  pub tx_func : ℕ → List ℕ → Cmd ℕ
  pub enabled : Bool

unfoldable pub transmit : ConsoleDevice → Calls → Cmd Unit
transmit dev [] = pure tt
transmit dev (msg ∷ calls) = do dev.tx_func dev.base_port msg; transmit dev calls

unfoldable pub send_formatted : ConsoleDevice → Option (Calls × ℕ) → Cmd ℕ
send_formatted dev none = no_rounds_left
send_formatted dev (some (calls, written)) = do transmit dev calls; pure written

unfoldable pub blogf :
    (fuel rounds : ℕ) → ConsoleDevice → Memory → (tmp format : ℕ) → List ℕ → Cmd ℕ
blogf fuel rounds dev m tmp format args =
    send_formatted dev (vfblogf fuel dev.enabled m tmp rounds format args)

-- The console over a serial port, as src/post.c switches to it.
abbrev pub serial_console : (fuel port : ℕ) → ConsoleDevice
serial_console fuel port = record { base_port = port; tx_func = serial_tx fuel; enabled = true }

unfoldable pub joined : Calls → List ℕ
joined [] = []
joined (msg ∷ calls) = msg ++ joined calls

after_message-append :
    (cs ds before : List ℕ)
    → after_message (cs ++ ds) before ≡ after_message ds (after_message cs before)
unfolding after_message
after_message-append [] ds before = refl
after_message-append (c ∷ cs) ds before = after_message-append cs ds _

module _ (port : ℕ) (hw : Hardware) (ready : IsReady port hw) (waits : ℕ) where
  transmit-Returns :
      (calls : Calls) (log : Log)
      → Returns
          (λ u after. sent port after ≡ after_message (joined calls) (sent port log))
          (transmit (serial_console (suc waits) port) calls hw log)
  unfolding transmit joined after_message
  transmit-Returns [] log = returns refl
  transmit-Returns (msg ∷ calls) log =
      Returns-bind _ (serial_tx-Returns port hw ready waits msg log) λ n log1 h1.
        Returns-mono (transmit-Returns calls log1) (λ u log2 h2.
          h2
          ∙ ap (after_message (joined calls)) (h1.1)
          ∙ sym (after_message-append msg (joined calls) (sent port log)))

  -- On a line that is always ready, formatted output of proper pieces over the serial port returns, on the rounds
  -- that the pieces need, what the pieces count, and the port has been sent exactly what they print, one behind the
  -- other, and then the 0 that ends the format, with a carriage return before each newline.
  pub blogf-Returns :
      (fuel : ℕ) (m : Memory) (tmp : ℕ) (ps : List Piece) (rounds f : ℕ) (log : Log)
      → 16 < fuel
      → tmp + 33 < 2 ^ 64
      → Holds m f (format_of ps)
      → AllProper fuel m ps
      → 2 * length ps < rounds
      → Returns
          (λ n after.
            (n ≡ all_counted ps)
            × (sent port after ≡ after_message (joined (all_calls ps)) (sent port log)))
          (blogf fuel rounds (serial_console (suc waits) port) m tmp f (all_arguments ps) hw log)
  unfolding blogf send_formatted
  blogf-Returns fuel m tmp ps rounds f log enough room h proper small =
      rw (vfblogf_lem fuel enough m tmp room ps rounds f h proper small)
        (Returns-bind _ (transmit-Returns (all_calls ps) log) λ u log1 h1. returns (refl, h1))
