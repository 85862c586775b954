-- ===== src/Panic/Dump.antt =====
-- A panic prints what it is to show.
use Prim.Native.String.{String}
use tiny_bios.Prelude.{
  ℕ, ◌+◌, ◌*◌, ◌^◌, ◌<◌, ◌≡◌, refl, ap, arith, u64, true, Option, some, List, [], ◌∷◌, ◌++◌, length,
  leb, Bool-cases, inl, inr,
}
use tiny_bios.Memory.{Memory, load64}
use tiny_bios.Cpu.{rsp, Processor, get_gpr, read_segment}
use tiny_bios.Console.{Calls}
use tiny_bios.Console.Texts.{Holds, blog-Holds}
use tiny_bios.Console.Pieces.{
  Piece, plain, text, hexadecimal, spell, spell_width, format_of, arguments_of, all_arguments,
  printed, counted, all_calls, all_counted, IsProper, AllProper,
}
use tiny_bios.Console.Format.{vfblogf_lem}
use tiny_bios.Panic.{
  codes, behind, register_lines, eight_words, log_text, log_format, dump_print_register, dump_all,
  whole_control, dump_line, dump_lines, dump_registers, dump_words, dump_stack, panic,
}
use tiny_bios.Panic.Shown.{
  shown_registers, stack_words, register_shown, all_shown, line_shown, lines_shown, four_shown,
  words_shown, panic_shown, Placed, AllPlaced, names_of, LinesPlaced, Linked,
}

behind_lem :
    (first second : Option Calls) (a b : Calls)
    → first ≡ some a
    → second ≡ some b
    → behind first second ≡ some (a ++ b)
unfolding behind
behind_lem first second a b h k = rw (h, k) refl

-- The format of a register.
abbrev register_pieces : (place : List ℕ → ℕ) → String → ℕ → List Piece
register_pieces place name v =
    text (place (codes name)) (codes name) ∷ plain 0x3d ∷ hexadecimal 16 v ∷ plain 0x20 ∷ []

abbrev four_pieces : ℕ → ℕ → ℕ → ℕ → List Piece → List Piece
four_pieces a b c d rest =
    plain 0x09
    ∷ hexadecimal 16 a
    ∷ plain 0x20
    ∷ hexadecimal 16 b
    ∷ plain 0x20
    ∷ hexadecimal 16 c
    ∷ plain 0x20
    ∷ hexadecimal 16 d
    ∷ plain 0x0a
    ∷ rest

abbrev words_text : String
words_text = "\t%016x %016x %016x %016x\n\t%016x %016x %016x %016x\n"

abbrev eight_pieces : (a b c d e f g h : ℕ) → List Piece
eight_pieces a b c d e f g h = four_pieces a b c d (four_pieces e f g h [])

words_spelled : (a b c d e f g h : ℕ) → format_of (eight_pieces a b c d e f g h) ≡ codes words_text
unfolding format_of spell spell_width
words_spelled a b c d e f g h = refl

register_spelled :
    (place : List ℕ → ℕ) (name : String) (v : ℕ)
    → format_of (register_pieces place name v) ≡ codes "%s=%016x "
unfolding format_of spell spell_width
register_spelled place name v = refl

module _ (fuel rounds : ℕ) (enough : 16 < fuel) (many : 40 < rounds) (m : Memory) (tmp : ℕ)
    (room : tmp + 33 < 2 ^ 64) (place : List ℕ → ℕ) (linked : Linked fuel m place) where
  log_text-Placed :
      (s : String)
      → Placed fuel m place s
      → log_text fuel rounds true m tmp place s ≡ some (codes s ∷ [])
  unfolding log_text Placed
  log_text-Placed s p = blog-Holds (codes s) fuel m (place (codes s)) p.0 p.1 p.2

  log_format_lem :
      (s : String) (ps : List Piece)
      → Placed fuel m place s
      → format_of ps ≡ codes s
      → AllProper fuel m ps
      → 2 * length ps < rounds
      → log_format fuel rounds true m tmp place s (all_arguments ps)
        ≡ some (all_calls ps, all_counted ps)
  unfolding log_format Placed
  log_format_lem s ps p spelled proper small =
      vfblogf_lem fuel enough m tmp room ps rounds (place (codes s)) (rw spelled p.0) proper small

  number : (v : ℕ) → IsProper fuel m (hexadecimal 16 v)
  unfolding IsProper
  number v = omega arith

  proper_plain : (c : ℕ) → 0 < c → c < 0x25 → IsProper fuel m (plain c)
  unfolding IsProper
  proper_plain c pos low = (pos, (λ e. absurd (omega arith)), (λ e. absurd (omega arith)))

  equals : IsProper fuel m (plain 0x3d)
  unfolding IsProper
  equals = (omega arith, (λ e. absurd (omega (arith, e))), (λ e. absurd (omega (arith, e))))

  space : IsProper fuel m (plain 0x20)
  space = proper_plain 0x20 (omega arith) (omega arith)

  register_proper :
      (name : String) (v : ℕ)
      → Placed fuel m place name
      → AllProper fuel m (register_pieces place name v)
  unfolding AllProper IsProper Placed
  register_proper name v p = (p, (equals, (number v, (space, tt))))

  four_proper :
      (a b c d : ℕ) (rest : List Piece)
      → AllProper fuel m rest
      → AllProper fuel m (four_pieces a b c d rest)
  unfolding AllProper
  four_proper a b c d rest p = (
    proper_plain 0x09 (omega arith) (omega arith),
    (
      number a,
      (
        space,
        (
          number b,
          (
            space,
            (number c, (space, (number d, (proper_plain 0x0a (omega arith) (omega arith), p)))),
          ),
        ),
      ),
    ),
  )

  register_counted :
      (name : String) (v : ℕ)
      → leb (all_counted (register_pieces place name v)) 25 ≡ leb (length (codes name)) 2
  unfolding all_counted counted
  register_counted name v = ground arith

  register_format_lem :
      (name : String) (v : ℕ)
      → Placed fuel m place name
      → log_format fuel rounds true m tmp place "%s=%016x " (place (codes name) ∷ v ∷ [])
        ≡ some
            (all_calls (register_pieces place name v), all_counted (register_pieces place name v))
  unfolding all_arguments arguments_of
  register_format_lem name v p =
      log_format_lem "%s=%016x " (register_pieces place name v) linked.register_format
        (register_spelled place name v) (register_proper name v p) (omega arith)

  dump_print_register_lem :
      (name : String) (v : ℕ)
      → Placed fuel m place name
      → dump_print_register fuel rounds true m tmp place name v ≡ some (register_shown name v)
  unfolding dump_print_register register_shown all_calls printed
  dump_print_register_lem name v p =
      rw (register_format_lem name v p, register_counted name v)
        (elim (Bool-cases (leb (length (codes name)) 2)) [
          | inl short ↦ rw (short, log_text-Placed " " linked.space) refl
          | inr long ↦ rw long refl
        ])

  dump_all_lem :
      (line : List (String × ℕ))
      → AllPlaced fuel m place (names_of line)
      → dump_all fuel rounds true m tmp place line ≡ some (all_shown line)
  unfolding dump_all all_shown AllPlaced
  dump_all_lem [] p = refl
  dump_all_lem ((name, v) ∷ rest) p =
      behind_lem _ _ _ _ (dump_print_register_lem name v p.0) (dump_all_lem rest p.1)

  dump_line_lem :
      (line : List (String × ℕ))
      → AllPlaced fuel m place (names_of line)
      → dump_line fuel rounds true m tmp place line ≡ some (line_shown line)
  unfolding dump_line line_shown
  dump_line_lem line p =
      behind_lem _ _ _ _ (log_text-Placed "\t" linked.tab)
        (behind_lem _ _ _ _ (dump_all_lem line p) (log_text-Placed "\n" linked.newline))

  dump_lines_lem :
      (lines : List (List (String × ℕ)))
      → LinesPlaced fuel m place lines
      → dump_lines fuel rounds true m tmp place lines ≡ some (lines_shown lines)
  unfolding dump_lines lines_shown LinesPlaced
  dump_lines_lem [] p = refl
  dump_lines_lem (line ∷ rest) p =
      behind_lem _ _ _ _ (dump_line_lem line p.0) (dump_lines_lem rest p.1)

  register_lines_lem : (cpu : Processor) → register_lines cpu ≡ shown_registers cpu
  unfolding register_lines get_gpr read_segment whole_control
  register_lines_lem cpu = refl

  dump_registers_lem :
      (cpu : Processor)
      → LinesPlaced fuel m place (shown_registers cpu)
      → dump_registers fuel rounds true m tmp place cpu
        ≡ some (codes "CPU State: \n" ∷ lines_shown (shown_registers cpu))
  unfolding dump_registers
  dump_registers_lem cpu p =
      behind_lem _ _ _ _ (log_text-Placed "CPU State: \n" linked.state)
        (rw (register_lines_lem cpu) (dump_lines_lem (shown_registers cpu) p))

  words_format_lem :
      (a b c d e f g h : ℕ)
      → log_format fuel rounds true m tmp place words_text (a ∷ b ∷ c ∷ d ∷ e ∷ f ∷ g ∷ h ∷ [])
        ≡ some
            (all_calls (eight_pieces a b c d e f g h), all_counted (eight_pieces a b c d e f g h))
  unfolding all_arguments arguments_of
  words_format_lem a b c d e f g h =
      log_format_lem words_text (eight_pieces a b c d e f g h) linked.words_format
        (words_spelled a b c d e f g h)
        (four_proper a b c d _ (four_proper e f g h [] (unfold AllProper in tt))) (omega arith)

  words_lem :
      (a b c d e f g h : ℕ)
      → dump_words fuel rounds true m tmp place (a ∷ b ∷ c ∷ d ∷ e ∷ f ∷ g ∷ h ∷ [])
        ≡ some (words_shown (a ∷ b ∷ c ∷ d ∷ e ∷ f ∷ g ∷ h ∷ []))
  unfolding dump_words words_shown four_shown all_calls printed
  words_lem a b c d e f g h = rw (words_format_lem a b c d e f g h) refl

  eight_words_lem :
      (cpu : Processor) (from a : ℕ)
      → a ≡ get_gpr rsp cpu + 8 * from
      → eight_words m a ≡ stack_words cpu m from
  unfolding eight_words get_gpr
  eight_words_lem cpu from a e = cc (
    at (a + 8) (from + 1) (omega (arith, e)),
    at (a + 16) (from + 2) (omega (arith, e)),
    at (a + 24) (from + 3) (omega (arith, e)),
    at (a + 32) (from + 4) (omega (arith, e)),
    at (a + 40) (from + 5) (omega (arith, e)),
    at (a + 48) (from + 6) (omega (arith, e)),
    at (a + 56) (from + 7) (omega (arith, e)),
  )
    where
      at :
          (x k : ℕ)
          → x ≡ u64 (cpu.gpr rsp) + 8 * k
          → load64 m x ≡ load64 m (u64 (cpu.gpr rsp) + 8 * k)
      at x k e = ap (load64 m) e

  dump_stack_lem :
      (cpu : Processor)
      → dump_stack fuel rounds true m tmp place cpu
        ≡ some (
            codes "STACK: \n"
            ∷ (words_shown (stack_words cpu m 0) ++ words_shown (stack_words cpu m 8)))
  unfolding dump_stack
  dump_stack_lem cpu = behind_lem _ _ _ _ (log_text-Placed "STACK: \n" linked.stack) (
      rw
        (
          eight_words_lem cpu 0 (get_gpr rsp cpu) (omega arith),
          eight_words_lem cpu 8 (get_gpr rsp cpu + 64) (omega arith),
        )
        (behind_lem _ _ _ _ (words_lem _ _ _ _ _ _ _ _) (words_lem _ _ _ _ _ _ _ _)))

  -- With the texts where the linker placed them, on enough rounds, and for a message of proper pieces
  -- in the memory, a panic prints to its end: the banner, the pieces of the message, each register,
  -- segment and control register by its name with sixteen digits, and the sixteen words from the
  -- stack pointer on. The digits are those of a number's low 32 bits with their sign extended.
  pub panic_lem :
      (cpu : Processor) (ps : List Piece) (msg : ℕ)
      → LinesPlaced fuel m place (shown_registers cpu)
      → Holds m msg (format_of ps)
      → AllProper fuel m ps
      → 2 * length ps < rounds
      → panic fuel rounds true m tmp place cpu msg (all_arguments ps) ≡ some (panic_shown cpu m ps)
  unfolding panic panic_shown
  panic_lem cpu ps msg names h proper small = behind_lem _ _ _ _ (log_text-Placed _ linked.banner) (
      behind_lem _ _ _ _ (rw (vfblogf_lem fuel enough m tmp room ps rounds msg h proper small) refl)
        (behind_lem _ _ _ _ (dump_registers_lem cpu names) (dump_stack_lem cpu)))
