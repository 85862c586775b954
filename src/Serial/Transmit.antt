-- ===== src/Serial/Transmit.antt =====
-- What `serial_tx` sends on a line that is ready.
use tiny_bios.Prelude.{
  ℕ, suc, ◌+◌, ◌≡◌, refl, arith, ap, ◌∙◌, List, [], ◌∷◌, length, ◌==◌, ◌!=◌, bit_and, u8,
  if◌then◌else◌, true, false, Bool-cases, inl, inr,
}
use tiny_bios.Port.{Log, Hardware, wrote8, read8, inb, outb}
use tiny_bios.Port.Triples.{Returns, returns, Returns-bind, Returns-mono}
use tiny_bios.Serial.{
  get_line_status, wait_loop, wait_for_tx_empty, wait_until_empty, tx_character, serial_tx,
}

-- The bytes that were written to a port, newest first.
unfoldable pub sent : ℕ → Log → List ℕ
sent port [] = []
sent port (wrote8 v at ∷ log) = if at == port then v ∷ sent port log else sent port log
sent port (_ ∷ log) = sent port log

-- A message in front of what was sent before: a carriage return goes before a newline.
unfoldable pub after_message : List ℕ → List ℕ → List ℕ
after_message [] before = before
after_message (c ∷ cs) before =
    after_message cs (if c == 0x0a then c ∷ 0x0d ∷ before else c ∷ before)

-- A later log, with writes to the port and reads of its line status only.
pub data Extends : ℕ → Log → Log → Type 0 where
  unchanged : {port : ℕ} {log : Log} → Extends port log log
  wrote :
      {port v : ℕ} {log after : Log}
      → Extends port log after
      → Extends port log (wrote8 v port ∷ after)
  polled :
      {port v : ℕ} {log after : Log}
      → Extends port log after
      → Extends port log (read8 v (port + 5) ∷ after)

Extends-trans :
    {port : ℕ} {log l1 l2 : Log} → Extends port log l1 → Extends port l1 l2 → Extends port log l2
Extends-trans h unchanged = h
Extends-trans h (wrote k) = wrote (Extends-trans h k)
Extends-trans h (polled k) = polled (Extends-trans h k)

-- The line of the port can always take a byte.
abbrev pub IsReady : ℕ → Hardware → Type 0
IsReady port hw = (log : Log) → (bit_and (u8 (hw log 8 (port + 5))) 0x20 != 0) ≡ true

module _ (port : ℕ) (hw : Hardware) (ready : IsReady port hw) (fuel : ℕ) where
  wait_loop-Returns :
      (left : ℕ) (log : Log)
      → Returns
          (λ timeout after. (timeout ≡ false) × (sent port after ≡ sent port log))
          (wait_loop (suc left) port hw log)
  unfolding wait_loop get_line_status inb sent
  wait_loop-Returns left log = rw (ready log) (returns (refl, refl))

  wait_for_tx_empty-Returns :
      (log : Log)
      → Returns
          (λ timeout after. (timeout ≡ false) × (sent port after ≡ sent port log))
          (wait_for_tx_empty port hw log)
  unfolding wait_for_tx_empty
  wait_for_tx_empty-Returns log = wait_loop-Returns 49999 log

  wait-Returns :
      (log : Log)
      → Returns
          (λ u after. sent port after ≡ sent port log)
          (wait_until_empty (suc fuel) port hw log)
  unfolding wait_until_empty
  wait-Returns log =
      Returns-bind _ (wait_for_tx_empty-Returns log) λ timeout after h. rw (h.0) (returns (h.1))

  outb-Returns :
      (c : ℕ) (log : Log)
      → Returns (λ u after. sent port after ≡ c ∷ sent port log) (outb c port hw log)
  unfolding outb sent
  outb-Returns c log = returns (ground arith)

  tx_character-Returns :
      (c : ℕ) (log : Log)
      → Returns
          (λ u after.
            sent port after ≡ (if c == 0x0a then c ∷ 0x0d ∷ sent port log else c ∷ sent port log))
          (tx_character (suc fuel) port c hw log)
  unfolding tx_character
  tx_character-Returns c log = elim (Bool-cases (c == 0x0a)) [
    | inl newline ↦ rw newline (
        Returns-bind _ (wait-Returns log) λ u1 log1 h1.
          Returns-bind _
            (Returns-bind _ (outb-Returns 0x0d log1) λ u2 log2 h2.
              Returns-mono (wait-Returns log2) (λ u3 log3 h3. h3 ∙ h2 ∙ ap (λ t. 0x0d ∷ t) h1))
            λ u4 log4 h4.
              Returns-mono (outb-Returns c log4) (λ u5 log5 h5. h5 ∙ ap (λ t. c ∷ t) h4))
    | inr plain ↦ rw plain (
        Returns-bind _ (wait-Returns log)
          λ u1 log1 h1. Returns-mono (outb-Returns c log1) (λ u2 log2 h2. h2 ∙ ap (λ t. c ∷ t) h1))
  ]

  -- On a line that is always ready, with one round per wait: sending a message returns its number
  -- of characters, and the port has been sent the message, with a carriage return before each
  -- newline, and nothing else.
  pub serial_tx-Returns :
      (cs : List ℕ) (log : Log)
      → Returns
          (λ n after. (n ≡ length cs) × (sent port after ≡ after_message cs (sent port log)))
          (serial_tx (suc fuel) port cs hw log)
  unfolding serial_tx after_message
  serial_tx-Returns [] log = returns (refl, refl)
  serial_tx-Returns (c ∷ cs) log = Returns-bind _ (tx_character-Returns c log) λ u log1 h1.
      Returns-bind _ (serial_tx-Returns cs log1)
        λ n log2 h2. returns (omega (arith, h2.0), h2.1 ∙ ap (after_message cs) h1)

  wait_loop-Extends :
      (left : ℕ) (log : Log)
      → Returns
          (λ timeout after. (timeout ≡ false) × Extends port log after)
          (wait_loop (suc left) port hw log)
  unfolding wait_loop get_line_status inb
  wait_loop-Extends left log = rw (ready log) (returns (refl, polled unchanged))

  wait_for_tx_empty-Extends :
      (log : Log)
      → Returns
          (λ timeout after. (timeout ≡ false) × Extends port log after)
          (wait_for_tx_empty port hw log)
  unfolding wait_for_tx_empty
  wait_for_tx_empty-Extends log = wait_loop-Extends 49999 log

  wait-Extends :
      (log : Log)
      → Returns (λ u after. Extends port log after) (wait_until_empty (suc fuel) port hw log)
  unfolding wait_until_empty
  wait-Extends log =
      Returns-bind _ (wait_for_tx_empty-Extends log) λ timeout after h. rw (h.0) (returns (h.1))

  tx_character-Extends :
      (c : ℕ) (log : Log)
      → Returns (λ u after. Extends port log after) (tx_character (suc fuel) port c hw log)
  unfolding tx_character outb
  tx_character-Extends c log = elim (Bool-cases (c == 0x0a)) [
    | inl newline ↦ rw newline (
        Returns-bind _ (wait-Extends log) λ u1 log1 h1.
          Returns-bind _ (wait-Extends (wrote8 0x0d port ∷ log1))
            λ u2 log2 h2. returns (wrote (Extends-trans (wrote h1) h2)))
    | inr plain ↦ rw plain (Returns-bind _ (wait-Extends log) λ u1 log1 h1. returns (wrote h1))
  ]

  -- Sending touches the port alone.
  pub serial_tx-Extends :
      (cs : List ℕ) (log : Log)
      → Returns (λ n after. Extends port log after) (serial_tx (suc fuel) port cs hw log)
  unfolding serial_tx
  serial_tx-Extends [] log = returns unchanged
  serial_tx-Extends (c ∷ cs) log = Returns-bind _ (tx_character-Extends c log) λ u log1 h1.
      Returns-bind _ (serial_tx-Extends cs log1) λ n log2 h2. returns (Extends-trans h1 h2)
