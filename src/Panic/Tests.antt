-- ===== src/Panic/Tests.antt =====
-- A panic in a memory with its texts at every thousandth address from 0x10000 on.
use Prim.Native.String.{String}
use tiny_bios.Prelude.{
  ℕ, zero, suc, ◌+◌, ◌-◌, ◌*◌, ◌/◌, ◌%◌, ◌<◌, ◌≡◌, refl, arith, Bool, true, false, ◌&&◌, some, List,
  [], ◌∷◌, length, ◌==◌, if◌then◌else◌,
}
use tiny_bios.Memory.{Memory}
use tiny_bios.Cpu.{slot, Processor}
use tiny_bios.Console.Texts.{char_at, Holds, NoZero}
use tiny_bios.Console.Pieces.{plain, format_of, spell, all_arguments, IsProper, AllProper}
use tiny_bios.Panic.{codes, panic}
use tiny_bios.Panic.Shown.{shown_registers, panic_shown, Placed, AllPlaced, LinesPlaced, Linked}
use tiny_bios.Panic.Dump.{panic_lem}

-- The texts, the message of one character last.
abbrev texts : List (List ℕ)
texts =
    codes "\n*** PANIC ***\nReason: "
    ∷ codes "CPU State: \n"
    ∷ codes "STACK: \n"
    ∷ codes "\t"
    ∷ codes "\n"
    ∷ codes " "
    ∷ codes "%s=%016x "
    ∷ codes "\t%016x %016x %016x %016x\n\t%016x %016x %016x %016x\n"
    ∷ codes "rax"
    ∷ codes "rbx"
    ∷ codes "rcx"
    ∷ codes "rdx"
    ∷ codes "rsi"
    ∷ codes "rdi"
    ∷ codes "rbp"
    ∷ codes "rsp"
    ∷ codes "r8"
    ∷ codes "r9"
    ∷ codes "r10"
    ∷ codes "r11"
    ∷ codes "r12"
    ∷ codes "r13"
    ∷ codes "r14"
    ∷ codes "r15"
    ∷ codes "cs"
    ∷ codes "es"
    ∷ codes "ds"
    ∷ codes "ss"
    ∷ codes "cr3"
    ∷ codes "cr4"
    ∷ codes "!"
    ∷ []

abbrev text_at : List (List ℕ) → ℕ → List ℕ
text_at [] i = []
text_at (t ∷ ts) zero = t
text_at (t ∷ ts) (suc i) = text_at ts i

abbrev memory : Memory
memory x = char_at (text_at texts ((x - 0x10000) / 1000)) ((x - 0x10000) % 1000)

abbrev same : List ℕ → List ℕ → Bool
same [] [] = true
same (c ∷ cs) (d ∷ ds) = (c == d) && same cs ds
same _ _ = false

abbrev index : List (List ℕ) → List ℕ → ℕ
index [] cs = 0
index (t ∷ ts) cs = let rest = suc (index ts cs) in if same t cs then 0 else rest

abbrev place : List ℕ → ℕ
place cs = 0x10000 + 1000 * index texts cs

held :
    (k : ℕ) (cs : List ℕ)
    → text_at texts k ≡ cs
    → length cs < 1000
    → Holds memory (0x10000 + 1000 * k) cs
held k cs e small i le =
    let quotient : (0x10000 + 1000 * k + i - 0x10000) / 1000 ≡ k = omega arith in
    let remainder : (0x10000 + 1000 * k + i - 0x10000) % 1000 ≡ i = omega arith in
    rw (quotient, remainder, e) refl

placed :
    (k : ℕ) (s : String)
    → text_at texts k ≡ codes s
    → place (codes s) ≡ 0x10000 + 1000 * k
    → NoZero (codes s)
    → length (codes s) < 60
    → Placed 60 memory place s
unfolding Placed
placed k s e at nz small = (rw at (held k (codes s) e (omega arith)), nz, small)

linked : Linked 60 memory place
unfolding NoZero
linked = record {
  banner = placed 0 "\n*** PANIC ***\nReason: " refl refl (omega arith) (omega arith);
  state = placed 1 "CPU State: \n" refl refl (omega arith) (omega arith);
  stack = placed 2 "STACK: \n" refl refl (omega arith) (omega arith);
  tab = placed 3 "\t" refl refl (omega arith) (omega arith);
  newline = placed 4 "\n" refl refl (omega arith) (omega arith);
  space = placed 5 " " refl refl (omega arith) (omega arith);
  register_format = placed 6 "%s=%016x " refl refl (omega arith) (omega arith);
  words_format =
      placed 7 "\t%016x %016x %016x %016x\n\t%016x %016x %016x %016x\n" refl refl (omega arith)
        (omega arith);
}

abbrev numbered : Processor
numbered = record { gpr = λ r. 0x12340000 + slot r; segment = λ s. 8; control = λ c. 0x20 }

names_placed : LinesPlaced 60 memory place (shown_registers numbered)
unfolding LinesPlaced AllPlaced NoZero
names_placed = (
  (
    placed 8 "rax" refl refl (omega arith) (omega arith),
    (
      placed 9 "rbx" refl refl (omega arith) (omega arith),
      (
        placed 10 "rcx" refl refl (omega arith) (omega arith),
        (placed 11 "rdx" refl refl (omega arith) (omega arith), tt),
      ),
    ),
  ),
  (
    (
      placed 12 "rsi" refl refl (omega arith) (omega arith),
      (
        placed 13 "rdi" refl refl (omega arith) (omega arith),
        (
          placed 14 "rbp" refl refl (omega arith) (omega arith),
          (placed 15 "rsp" refl refl (omega arith) (omega arith), tt),
        ),
      ),
    ),
    (
      (
        placed 16 "r8" refl refl (omega arith) (omega arith),
        (
          placed 17 "r9" refl refl (omega arith) (omega arith),
          (
            placed 18 "r10" refl refl (omega arith) (omega arith),
            (placed 19 "r11" refl refl (omega arith) (omega arith), tt),
          ),
        ),
      ),
      (
        (
          placed 20 "r12" refl refl (omega arith) (omega arith),
          (
            placed 21 "r13" refl refl (omega arith) (omega arith),
            (
              placed 22 "r14" refl refl (omega arith) (omega arith),
              (placed 23 "r15" refl refl (omega arith) (omega arith), tt),
            ),
          ),
        ),
        (
          (
            placed 24 "cs" refl refl (omega arith) (omega arith),
            (
              placed 25 "es" refl refl (omega arith) (omega arith),
              (
                placed 26 "ds" refl refl (omega arith) (omega arith),
                (placed 27 "ss" refl refl (omega arith) (omega arith), tt),
              ),
            ),
          ),
          (
            (
              placed 28 "cr3" refl refl (omega arith) (omega arith),
              (placed 29 "cr4" refl refl (omega arith) (omega arith), tt),
            ),
            tt,
          ),
        ),
      ),
    ),
  ),
)

-- The message `!`, at the address of the last text.
message_held : Holds memory (0x10000 + 1000 * 30) (format_of (plain 0x21 ∷ []))
unfolding format_of spell
message_held = held 30 (0x21 ∷ []) refl (omega arith)

message_proper : AllProper 60 memory (plain 0x21 ∷ [])
unfolding AllProper IsProper
message_proper =
    ((omega arith, (λ e. absurd (omega (arith, e))), (λ e. absurd (omega (arith, e)))), tt)

panic_lem_example :
    panic 60 41 true memory 0x7000 place numbered
      (0x10000 + 1000 * 30)
      (all_arguments (plain 0x21 ∷ []))
    ≡ some (panic_shown numbered memory (plain 0x21 ∷ []))
panic_lem_example =
    panic_lem 60 41 (omega arith) (omega arith) memory 0x7000 (omega arith) place linked numbered
      (plain 0x21 ∷ []) (0x10000 + 1000 * 30) names_placed message_held message_proper (omega arith)
