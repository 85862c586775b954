-- ===== src/Panic.antt =====
-- src/panic.c: what a panic prints before it hangs. The calls of the console's device are listed, as
-- in the model of src/console.c. Where the linker places a text is a parameter.
pub mod Shown
pub mod Dump
mod Tests
use Prim.Native.Char.{code}
use Prim.Native.String.{String}
use tiny_bios.Prelude.{
  ℕ, ◌+◌, ◌*◌, Bool, Option, none, some, List, [], ◌∷◌, ◌++◌, leb, u64, if◌then◌else◌,
}
use tiny_bios.Memory.{Memory, load64}
use tiny_bios.Cpu.{
  r8, r9, r10, r11, r12, r13, r14, r15, rdi, rsi, rbp, rsp, rbx, rdx, rcx, rax, cs, ds, es, ss, gs,
  fs, Control, cr3, cr4, Processor, get_gpr, read_segment,
}
use tiny_bios.Console.{Calls, ◌>>=◌, blog, vfblogf}

-- The characters of a text, all of them ASCII.
abbrev pub codes : String → List ℕ
codes String.[] = []
codes (String.◌∷◌ c s) = code c ∷ codes s

-- The calls of one statement and then those of the next.
unfoldable pub behind : Option Calls → Option Calls → Option Calls
behind first second = do calls ← first; more ← second; some (calls ++ more)

-- `mov reg_for_dump, cr3` and `cr4`.
unfoldable pub whole_control : Control → Processor → ℕ
whole_control c cpu = u64 (cpu.control c)

-- The names and values of the lines of the dump.
unfoldable pub register_lines : Processor → List (List (String × ℕ))
register_lines cpu =
    (("rax", get_gpr rax cpu)
      ∷ ("rbx", get_gpr rbx cpu)
      ∷ ("rcx", get_gpr rcx cpu)
      ∷ ("rdx", get_gpr rdx cpu)
      ∷ [])
    ∷ (("rsi", get_gpr rsi cpu)
        ∷ ("rdi", get_gpr rdi cpu)
        ∷ ("rbp", get_gpr rbp cpu)
        ∷ ("rsp", get_gpr rsp cpu)
        ∷ [])
    ∷ (("r8", get_gpr r8 cpu)
        ∷ ("r9", get_gpr r9 cpu)
        ∷ ("r10", get_gpr r10 cpu)
        ∷ ("r11", get_gpr r11 cpu)
        ∷ [])
    ∷ (("r12", get_gpr r12 cpu)
        ∷ ("r13", get_gpr r13 cpu)
        ∷ ("r14", get_gpr r14 cpu)
        ∷ ("r15", get_gpr r15 cpu)
        ∷ [])
    ∷ (("cs", read_segment cs cpu)
        ∷ ("es", read_segment es cpu)
        ∷ ("ds", read_segment ds cpu)
        ∷ ("ss", read_segment ss cpu)
        ∷ [])
    ∷ (("cr3", whole_control cr3 cpu) ∷ ("cr4", whole_control cr4 cpu) ∷ [])
    ∷ []

-- The eight words of eight bytes from an address on.
unfoldable pub eight_words : Memory → ℕ → List ℕ
eight_words m a =
    load64 m a
    ∷ load64 m (a + 8)
    ∷ load64 m (a + 16)
    ∷ load64 m (a + 24)
    ∷ load64 m (a + 32)
    ∷ load64 m (a + 40)
    ∷ load64 m (a + 48)
    ∷ load64 m (a + 56)
    ∷ []

module _ (fuel rounds : ℕ) (enabled : Bool) (m : Memory) (tmp : ℕ) (place : List ℕ → ℕ) where
  unfoldable pub log_text : String → Option Calls
  log_text s = blog fuel enabled m (place (codes s))

  -- What `blogf` prints, and what it returns.
  unfoldable pub log_format : String → List ℕ → Option (Calls × ℕ)
  log_format format args = vfblogf fuel enabled m tmp rounds (place (codes format)) args

  unfoldable pub dump_print_register : (name : String) → (val : ℕ) → Option Calls
  dump_print_register name val = do
    (calls, written) ← log_format "%s=%016x " (place (codes name) ∷ val ∷ [])
    more ← (if leb written 25 then log_text " " else some [])
    some (calls ++ more)

  unfoldable pub dump_all : List (String × ℕ) → Option Calls
  dump_all [] = some []
  dump_all ((name, val) ∷ rest) = behind (dump_print_register name val) (dump_all rest)

  unfoldable pub dump_line : List (String × ℕ) → Option Calls
  dump_line line = behind (log_text "\t") (behind (dump_all line) (log_text "\n"))

  unfoldable pub dump_lines : List (List (String × ℕ)) → Option Calls
  dump_lines [] = some []
  dump_lines (line ∷ rest) = behind (dump_line line) (dump_lines rest)

  unfoldable pub dump_registers : Processor → Option Calls
  dump_registers cpu = behind (log_text "CPU State: \n") (dump_lines (register_lines cpu))

  unfoldable pub dump_words : List ℕ → Option Calls
  dump_words args = do
    (calls, written) ← log_format "\t%016x %016x %016x %016x\n\t%016x %016x %016x %016x\n" args
    some calls

  unfoldable pub dump_stack : Processor → Option Calls
  dump_stack cpu = behind (log_text "STACK: \n") (
      behind (dump_words (eight_words m (get_gpr rsp cpu)))
        (dump_words (eight_words m (get_gpr rsp cpu + 64))))

  -- Up to `hang`, which does not return.
  unfoldable pub panic : Processor → (msg : ℕ) → List ℕ → Option Calls
  panic cpu msg args = behind (log_text "\n*** PANIC ***\nReason: ") (
      behind (do (calls, written) ← vfblogf fuel enabled m tmp rounds msg args; some calls)
        (behind (dump_registers cpu) (dump_stack cpu)))
