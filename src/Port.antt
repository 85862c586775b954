-- ===== src/Port.antt =====
-- src/include/sys/io.h: port input and output, over a log of what the processor did, newest first.
-- What a port answers is the machine's business: it is a parameter, a function of the whole log.
pub mod Guards
pub mod Triples
use Prim.Native.String.{String}
use tiny_bios.Prelude.{ℕ, ◌%◌, ◌^◌, Bool, List, ◌∷◌, u8, u16, u32}

pub data Event : Type 0 where
  -- value, port
  wrote8 wrote16 wrote32 read8 read16 read32 : ℕ → ℕ → Event
  -- `iodelay`
  delayed : ℕ → Event
  -- `cli` and `sti`
  interrupts : Bool → Event
  -- a text handed to the console, with its integer arguments
  message : String → List ℕ → Event

abbrev pub Log : Type 0
Log = List Event

-- The answer to a read of so many bits from a port, after that log.
abbrev pub Hardware : Type 0
Hardware = Log → ℕ → ℕ → ℕ

pub data Run (A : Type 0) : Type 0 where
  ok : A → Log → Run A
  -- `panic` does not return
  panicked : Log → Run A
  -- a loop without a bound of its own did not end in the rounds that it was given
  out_of_fuel : Run A

abbrev pub Cmd : Type 0 → Type 0
Cmd A = Hardware → Log → Run A

abbrev pub pure : {A : Type 0} → A → Cmd A
pure a hw log = ok a log

module _ {A B : Type 0} where
  abbrev pub and_then : Hardware → Run A → (A → Cmd B) → Run B
  and_then hw (ok a log) k = k a hw log
  and_then hw (panicked log) k = panicked log
  and_then hw out_of_fuel k = out_of_fuel

  infixl 5 ◌>>=◌ ◌>>◌
  abbrev pub ◌>>=◌ : Cmd A → (A → Cmd B) → Cmd B
  ◌>>=◌ m k hw log = and_then hw (m hw log) k

  abbrev pub ◌>>◌ : Cmd A → Cmd B → Cmd B
  m >> n = m >>= λ _. n

abbrev pub emit : Event → Cmd (Unit {0})
emit e hw log = ok tt (e ∷ log)

unfoldable pub inb : ℕ → Cmd ℕ
inb port hw log = let v = u8 (hw log 8 port) in ok v (read8 v port ∷ log)

unfoldable pub inw : ℕ → Cmd ℕ
inw port hw log = let v = u16 (hw log 16 port) in ok v (read16 v port ∷ log)

unfoldable pub inl : ℕ → Cmd ℕ
inl port hw log = let v = u32 (hw log 32 port) in ok v (read32 v port ∷ log)

unfoldable pub outb : ℕ → ℕ → Cmd (Unit {0})
outb v port = emit (wrote8 v port)

unfoldable pub outw : ℕ → ℕ → Cmd (Unit {0})
outw v port = emit (wrote16 v port)

unfoldable pub outl : ℕ → ℕ → Cmd (Unit {0})
outl v port = emit (wrote32 v port)

unfoldable pub iodelay : ℕ → Cmd (Unit {0})
iodelay time = emit (delayed time)

abbrev pub blogf : String → List ℕ → Cmd (Unit {0})
blogf text values = emit (message text values)

abbrev pub panic : {A : Type 0} → String → Cmd A
panic text hw log = panicked (message text List.[] ∷ log)

-- With its integer arguments.
abbrev pub panicf : {A : Type 0} → String → List ℕ → Cmd A
panicf text values hw log = panicked (message text values ∷ log)

abbrev pub no_rounds_left : {A : Type 0} → Cmd A
no_rounds_left hw log = out_of_fuel
