-- ===== src/Port/Triples.antt =====
-- What may be said of a run: what its log satisfies, and that it returns.
use Prim.Native.String.{String}
use tiny_bios.Prelude.{ℕ, ◌^◌, ◌<◌, Bool, true, false, arith, if◌then◌else◌}
use tiny_bios.Port.{
  Log, Hardware, Run, ok, panicked, Cmd, pure, and_then, ◌>>=◌, ◌>>◌, Event, emit, inb, inw, inl,
  outb, panic,
}

-- The run returns, and its result and log satisfy `P`.
pub data Returns {A : Type 0} (P : A → Log → Type 0) : Run A → Type 0 where
  returns : {a : A} {log : Log} → P a log → Returns P (ok a log)

-- The run ends, by a return or by a panic, and its log satisfies `P` then.
pub data Leaves {A : Type 0} (P : Log → Type 0) : Run A → Type 0 where
  at_end : {a : A} {log : Log} → P log → Leaves P (ok a log)
  at_panic : {log : Log} → P log → Leaves P (panicked log)

-- The run ends, and if it returns, its result satisfies `P`.
pub data Ends {A : Type 0} (P : A → Type 0) : Run A → Type 0 where
  with_result : {a : A} {log : Log} → P a → Ends P (ok a log)
  with_panic : {log : Log} → Ends P (panicked log)

-- A command that ends on any machine, with such a result if it returns.
pub record Always {A : Type 0} (P : A → Type 0) (m : Cmd A) : Type 0 where
  pub always : (hw : Hardware) (log : Log) → Ends P (m hw log)

-- A command that keeps a property of the log, on any machine.
pub record Keeps (P : Log → Type 0) {A : Type 0} (m : Cmd A) : Type 0 where
  pub keeps : (hw : Hardware) (log : Log) → P log → Leaves P (m hw log)

module _ {A B : Type 0} {P : A → Log → Type 0} {hw : Hardware} where
  -- Go on from any result that the first part may have.
  pub Returns-bind :
      {Q : B → Log → Type 0} {r : Run A} (k : A → Cmd B)
      → Returns P r
      → ((a : A) (log : Log) → P a log → Returns Q (k a hw log))
      → Returns Q (and_then hw r k)
  Returns-bind k (returns h) next = next _ _ h

  pub Leaves-after :
      {Q : Log → Type 0} {r : Run A} (k : A → Cmd B)
      → Returns P r
      → ((a : A) (log : Log) → P a log → Leaves Q (k a hw log))
      → Leaves Q (and_then hw r k)
  Leaves-after k (returns h) next = next _ _ h

pub Returns-mono :
    {A : Type 0} {P Q : A → Log → Type 0} {r : Run A}
    → Returns P r
    → ((a : A) (log : Log) → P a log → Q a log)
    → Returns Q r
Returns-mono (returns h) weaken = returns (weaken _ _ h)

pub Returns-Ends :
    {A : Type 0} {P : A → Log → Type 0} {Q : A → Type 0} {r : Run A}
    → Returns P r
    → ((a : A) (log : Log) → P a log → Q a)
    → Ends Q r
Returns-Ends (returns h) weaken = with_result (weaken _ _ h)

module _ {P : Log → Type 0} {A : Type 0} where
  pub Keeps-pure : (a : A) → Keeps P (pure a)
  Keeps-pure a = record { keeps = λ hw log h. at_end h }

  Leaves-bind :
      {B : Type 0} (hw : Hardware) {r : Run A} (k : A → Cmd B)
      → Leaves P r
      → ((a : A) → Keeps P (k a))
      → Leaves P (and_then hw r k)
  Leaves-bind hw k (at_end h) next = (next _).keeps hw _ h
  Leaves-bind hw k (at_panic h) next = at_panic h

  pub Keeps-bind :
      {B : Type 0} {m : Cmd A} {k : A → Cmd B}
      → Keeps P m
      → ((a : A) → Keeps P (k a))
      → Keeps P (m >>= k)
  Keeps-bind {k} h next = record { keeps = λ hw log p. Leaves-bind hw k (h.keeps hw log p) next }

  pub Keeps-after :
      {B : Type 0} {Q : A → Log → Type 0} {m : Cmd A} {k : A → Cmd B}
      → ((hw : Hardware) (log : Log) → P log → Returns Q (m hw log))
      → ((a : A) (hw : Hardware) (log : Log) → Q a log → Leaves P (k a hw log))
      → Keeps P (m >>= k)
  Keeps-after {k} first next = record {
    keeps = λ hw log p. Leaves-after k (first hw log p) (λ a log' q. next a hw log' q);
  }

  pub Keeps-if : (b : Bool) {m n : Cmd A} → Keeps P m → Keeps P n → Keeps P (if b then m else n)
  Keeps-if true h k = h
  Keeps-if false h k = k

module _ {A : Type 0} {P : A → Type 0} where
  pub Always-pure : {a : A} → P a → Always P (pure a)
  Always-pure h = record { always = λ hw log. with_result h }

  pub Always-if : (b : Bool) {m n : Cmd A} → Always P m → Always P n → Always P (if b then m else n)
  Always-if true h k = h
  Always-if false h k = k

  pub Ends-mono : {Q : A → Type 0} {r : Run A} → Ends P r → ((a : A) → P a → Q a) → Ends Q r
  Ends-mono (with_result h) weaken = with_result (weaken _ h)
  Ends-mono with_panic weaken = with_panic

  pub Always-mono : {Q : A → Type 0} {m : Cmd A} → Always P m → ((a : A) → P a → Q a) → Always Q m
  Always-mono h weaken = record { always = λ hw log. Ends-mono (h.always hw log) weaken }

  pub Ends-both : {Q : A → Type 0} {r : Run A} → Ends P r → Ends Q r → Ends (λ a. P a × Q a) r
  Ends-both (with_result h) (with_result k) = with_result (h, k)
  Ends-both with_panic k = with_panic

  pub Always-both :
      {Q : A → Type 0} {m : Cmd A} → Always P m → Always Q m → Always (λ a. P a × Q a) m
  Always-both h k = record { always = λ hw log. Ends-both (h.always hw log) (k.always hw log) }

  -- Go on from any result, on the same machine.
  pub Ends-then :
      {B : Type 0} {Q : B → Type 0} (hw : Hardware) {r : Run A} (k : A → Cmd B)
      → Ends P r
      → ((a : A) (log : Log) → P a → Ends Q (k a hw log))
      → Ends Q (and_then hw r k)
  Ends-then hw k (with_result h) next = next _ _ h
  Ends-then hw k with_panic next = with_panic

  Ends-bind :
      {B : Type 0} {Q : B → Type 0} (hw : Hardware) {r : Run A} (k : A → Cmd B)
      → Ends P r
      → ((a : A) → P a → Always Q (k a))
      → Ends Q (and_then hw r k)
  Ends-bind hw k (with_result h) next = (next _ h).always hw _
  Ends-bind hw k with_panic next = with_panic

  pub Always-bind :
      {B : Type 0} {Q : B → Type 0} {m : Cmd A} {k : A → Cmd B}
      → Always P m
      → ((a : A) → P a → Always Q (k a))
      → Always Q (m >>= k)
  Always-bind {k} h next = record { always = λ hw log. Ends-bind hw k (h.always hw log) next }

-- A step whose result is not used.
pub Always-after :
    {A B : Type 0} {P : A → Type 0} {Q : B → Type 0} {m : Cmd A} {n : Cmd B}
    → Always P m
    → Always Q n
    → Always Q (m >> n)
Always-after h next = Always-bind h λ a p. next

-- The rules for the primitives.
pub Always-inb : (port : ℕ) → Always (λ v. v < 256) (inb port)
unfolding inb
Always-inb port = record { always = λ hw log. with_result (omega arith) }

pub Always-inw : (port : ℕ) → Always (λ v. v < 65536) (inw port)
unfolding inw
Always-inw port = record { always = λ hw log. with_result (omega arith) }

pub Always-inl : (port : ℕ) → Always (λ v. v < 2 ^ 32) (inl port)
unfolding inl
Always-inl port = record { always = λ hw log. with_result (omega arith) }

abbrev pub Any : {A : Type 0} → A → Type 0
Any a = Unit

pub Always-emit : (e : Event) → Always Any (emit e)
Always-emit e = record { always = λ hw log. with_result tt }

pub Always-outb : (v port : ℕ) → Always Any (outb v port)
unfolding outb
Always-outb v port = Always-emit _

pub Always-panic : {A : Type 0} {P : A → Type 0} (text : String) → Always P (panic {A = A} text)
Always-panic text = record { always = λ hw log. with_panic }
