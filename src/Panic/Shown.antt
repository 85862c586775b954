-- ===== src/Panic/Shown.antt =====
-- What a panic shows, written down without the formats.
use Prim.Native.String.{String}
use tiny_bios.Prelude.{ℕ, ◌+◌, ◌*◌, ◌%◌, ◌^◌, ◌<◌, List, [], ◌∷◌, ◌++◌, length, leb, if◌then◌else◌}
use tiny_bios.Memory.{Memory, load64}
use tiny_bios.Cpu.{
  r8, r9, r10, r11, r12, r13, r14, r15, rdi, rsi, rbp, rsp, rbx, rdx, rcx, rax, cs, ds, es, ss, cr3,
  cr4, Register, Segment, Control, Processor,
}
use tiny_bios.Console.{Calls, number_characters}
use tiny_bios.Console.Texts.{Holds, NoZero}
use tiny_bios.Console.Trim.{trim}
use tiny_bios.Console.Pieces.{Piece, all_calls}
use tiny_bios.Panic.{codes}

-- Sixteen hexadecimal digits.
abbrev pub digits : ℕ → List ℕ
digits v = trim 16 (number_characters v 16)

-- The name, its number, and a space; one more behind a name of two characters.
unfoldable pub register_shown : String → ℕ → Calls
register_shown name v =
    codes name
    ∷ codes "="
    ∷ digits v
    ∷ codes " "
    ∷ (0 ∷ [])
    ∷ (if leb (length (codes name)) 2 then codes " " ∷ [] else [])

unfoldable pub all_shown : List (String × ℕ) → Calls
all_shown [] = []
all_shown ((name, v) ∷ rest) = register_shown name v ++ all_shown rest

unfoldable pub line_shown : List (String × ℕ) → Calls
line_shown line = codes "\t" ∷ (all_shown line ++ codes "\n" ∷ [])

unfoldable pub lines_shown : List (List (String × ℕ)) → Calls
lines_shown [] = []
lines_shown (line ∷ rest) = line_shown line ++ lines_shown rest

-- Four numbers with spaces between them.
unfoldable pub four_shown : ℕ → ℕ → ℕ → ℕ → Calls
four_shown a b c d =
    codes "\t"
    ∷ digits a
    ∷ codes " "
    ∷ digits b
    ∷ codes " "
    ∷ digits c
    ∷ codes " "
    ∷ digits d
    ∷ codes "\n"
    ∷ []

-- Two lines of four, and the 0 that ends their format.
unfoldable pub words_shown : List ℕ → Calls
words_shown (a ∷ b ∷ c ∷ d ∷ e ∷ f ∷ g ∷ h ∷ []) =
    four_shown a b c d ++ (four_shown e f g h ++ (0 ∷ []) ∷ [])
words_shown _ = []

-- What the processor holds: 64 bits of a general or control register, 16 of a segment.
abbrev general : Processor → Register → ℕ
general cpu r = cpu.gpr r % 2 ^ 64

abbrev selector : Processor → Segment → ℕ
selector cpu s = cpu.segment s % 2 ^ 16

abbrev control : Processor → Control → ℕ
control cpu c = cpu.control c % 2 ^ 64

-- Every register under its own name, line by line.
abbrev pub shown_registers : Processor → List (List (String × ℕ))
shown_registers cpu =
    (("rax", general cpu rax)
      ∷ ("rbx", general cpu rbx)
      ∷ ("rcx", general cpu rcx)
      ∷ ("rdx", general cpu rdx)
      ∷ [])
    ∷ (("rsi", general cpu rsi)
        ∷ ("rdi", general cpu rdi)
        ∷ ("rbp", general cpu rbp)
        ∷ ("rsp", general cpu rsp)
        ∷ [])
    ∷ (("r8", general cpu r8)
        ∷ ("r9", general cpu r9)
        ∷ ("r10", general cpu r10)
        ∷ ("r11", general cpu r11)
        ∷ [])
    ∷ (("r12", general cpu r12)
        ∷ ("r13", general cpu r13)
        ∷ ("r14", general cpu r14)
        ∷ ("r15", general cpu r15)
        ∷ [])
    ∷ (("cs", selector cpu cs)
        ∷ ("es", selector cpu es)
        ∷ ("ds", selector cpu ds)
        ∷ ("ss", selector cpu ss)
        ∷ [])
    ∷ (("cr3", control cpu cr3) ∷ ("cr4", control cpu cr4) ∷ [])
    ∷ []

-- The word number `k` from the stack pointer on, and eight of them.
abbrev stack_word : Processor → Memory → ℕ → ℕ
stack_word cpu m k = load64 m (general cpu rsp + 8 * k)

abbrev pub stack_words : Processor → Memory → (from : ℕ) → List ℕ
stack_words cpu m from =
    stack_word cpu m from
    ∷ stack_word cpu m (from + 1)
    ∷ stack_word cpu m (from + 2)
    ∷ stack_word cpu m (from + 3)
    ∷ stack_word cpu m (from + 4)
    ∷ stack_word cpu m (from + 5)
    ∷ stack_word cpu m (from + 6)
    ∷ stack_word cpu m (from + 7)
    ∷ []

unfoldable pub panic_shown : Processor → Memory → List Piece → Calls
panic_shown cpu m ps =
    codes "\n*** PANIC ***\nReason: "
    ∷ (all_calls ps
        ++ ((codes "CPU State: \n" ∷ lines_shown (shown_registers cpu))
            ++ (codes "STACK: \n"
                ∷ (words_shown (stack_words cpu m 0) ++ words_shown (stack_words cpu m 8)))))

-- The text is in the memory where the linker placed it.
unfoldable pub Placed : (fuel : ℕ) → Memory → (place : List ℕ → ℕ) → String → Type 0
Placed fuel m place s =
    Holds m (place (codes s)) (codes s) × NoZero (codes s) × (length (codes s) < fuel)

unfoldable pub AllPlaced : (fuel : ℕ) → Memory → (place : List ℕ → ℕ) → List String → Type 0
AllPlaced fuel m place [] = Unit
AllPlaced fuel m place (s ∷ rest) = Placed fuel m place s × AllPlaced fuel m place rest

abbrev pub names_of : List (String × ℕ) → List String
names_of [] = []
names_of ((name, v) ∷ rest) = name ∷ names_of rest

unfoldable pub LinesPlaced :
    (fuel : ℕ) → Memory → (place : List ℕ → ℕ) → List (List (String × ℕ)) → Type 0
LinesPlaced fuel m place [] = Unit
LinesPlaced fuel m place (line ∷ rest) =
    AllPlaced fuel m place (names_of line) × LinesPlaced fuel m place rest

-- The texts that a panic prints besides the names.
pub record Linked (fuel : ℕ) (m : Memory) (place : List ℕ → ℕ) : Type 0 where
  pub banner : Placed fuel m place "\n*** PANIC ***\nReason: "
  pub state : Placed fuel m place "CPU State: \n"
  pub stack : Placed fuel m place "STACK: \n"
  pub tab : Placed fuel m place "\t"
  pub newline : Placed fuel m place "\n"
  pub space : Placed fuel m place " "
  pub register_format : Placed fuel m place "%s=%016x "
  pub words_format : Placed fuel m place "\t%016x %016x %016x %016x\n\t%016x %016x %016x %016x\n"
