-- ===== src/Port/Guards.antt =====
-- A command that keeps a property of the log and ends, by a return or a panic, on any machine.
use Prim.Native.String.{String}
use tiny_bios.Prelude.{[], ◌∷◌, Bool, true, false, if◌then◌else◌}
use tiny_bios.Port.{Log, Hardware, Run, ok, panicked, Cmd, pure, and_then, ◌>>=◌, message, panic}
use tiny_bios.Port.Triples.{Leaves, at_end, at_panic, Ends, with_result, with_panic, Always, Keeps}

-- The run ends with a log that satisfies `I`; if it returns, its result satisfies `P`.
pub data Ended {A : Type 0} (I : Log → Type 0) (P : A → Type 0) : Run A → Type 0 where
  returned : {a : A} {log : Log} → I log → P a → Ended I P (ok a log)
  gave_up : {log : Log} → I log → Ended I P (panicked log)

pub record Guards (I : Log → Type 0) {A : Type 0} (P : A → Type 0) (m : Cmd A) : Type 0 where
  pub guards : (hw : Hardware) (log : Log) → I log → Ended I P (m hw log)

module _ {I : Log → Type 0} {A : Type 0} {P : A → Type 0} where
  pub Guards-pure : {a : A} → P a → Guards I P (pure a)
  Guards-pure p = record { guards = λ hw log i. returned i p }

  pub Guards-if :
      (b : Bool) {m n : Cmd A} → Guards I P m → Guards I P n → Guards I P (if b then m else n)
  Guards-if true h k = h
  Guards-if false h k = k

  Ended-bind :
      {B : Type 0} {Q : B → Type 0} (hw : Hardware) {r : Run A} (k : A → Cmd B)
      → Ended I P r
      → ((a : A) → P a → Guards I Q (k a))
      → Ended I Q (and_then hw r k)
  Ended-bind hw k (returned i p) next = (next _ p).guards hw _ i
  Ended-bind hw k (gave_up i) next = gave_up i

  pub Guards-bind :
      {B : Type 0} {Q : B → Type 0} {m : Cmd A} {k : A → Cmd B}
      → Guards I P m
      → ((a : A) → P a → Guards I Q (k a))
      → Guards I Q (m >>= k)
  Guards-bind {k} h next = record { guards = λ hw log i. Ended-bind hw k (h.guards hw log i) next }

  Ended-mono : {Q : A → Type 0} {r : Run A} → Ended I P r → ((a : A) → P a → Q a) → Ended I Q r
  Ended-mono (returned i p) weaken = returned i (weaken _ p)
  Ended-mono (gave_up i) weaken = gave_up i

  pub Guards-mono :
      {Q : A → Type 0} {m : Cmd A} → Guards I P m → ((a : A) → P a → Q a) → Guards I Q m
  Guards-mono h weaken = record { guards = λ hw log i. Ended-mono (h.guards hw log i) weaken }

  Ended-Ends : {r : Run A} → Ended I P r → Ends P r
  Ended-Ends (returned i p) = with_result p
  Ended-Ends (gave_up i) = with_panic

  Ended-Leaves : {r : Run A} → Ended I P r → Leaves I r
  Ended-Leaves (returned i p) = at_end i
  Ended-Leaves (gave_up i) = at_panic i

  pub Guards-Keeps : {m : Cmd A} → Guards I P m → Keeps I m
  Guards-Keeps h = record { keeps = λ hw log i. Ended-Leaves (h.guards hw log i) }

  pub Guards-panic :
      (text : String) → ((log : Log) → I log → I (message text [] ∷ log)) → Guards I P (panic text)
  Guards-panic text more = record { guards = λ hw log i. gave_up (more log i) }

-- With nothing asked of the log.
pub Guards-Always :
    {A : Type 0} {P : A → Type 0} {m : Cmd A} → Guards (λ log. Unit) P m → Always P m
Guards-Always h = record { always = λ hw log. Ended-Ends (h.guards hw log tt) }
