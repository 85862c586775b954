-- ===== src/Console/Tests.antt =====
-- The console at a format of four pieces: `v=`, a number of width 4 and a text.
use tiny_bios.Prelude.{
  ℕ, ◌+◌, ◌-◌, ◌≤◌, ◌≡◌, refl, ap, arith, true, false, some, List, [], ◌∷◌, length, leb,
  if◌then◌else◌,
}
use tiny_bios.Memory.{Memory}
use tiny_bios.Port.{Hardware}
use tiny_bios.Port.Triples.{Returns}
use tiny_bios.Serial.Transmit.{sent, after_message, IsReady}
use tiny_bios.Text.Hex.{read_hex}
use tiny_bios.Console.{extend_sign, number_characters, bputint, vfblogf}
use tiny_bios.Console.Texts.{char_at, Holds, NoZero}
use tiny_bios.Console.Trim.{trim}
use tiny_bios.Console.Pieces.{
  Piece, plain, literal, text, hexadecimal, spell, spell_width, format_of, all_arguments, all_calls,
  all_counted, IsProper, AllProper,
}
use tiny_bios.Console.Numbers.{bputint_lem, read_hex-bputint}
use tiny_bios.Console.Format.{vfblogf_lem}
use tiny_bios.Console.Device.{serial_console, blogf, joined, blogf-Returns}

abbrev pieces : List Piece
pieces = plain 0x76 ∷ literal 0x25 ∷ hexadecimal 4 0xbe ∷ text 0x200 (0x6f ∷ 0x6b ∷ []) ∷ []

-- The format at 0x100, and the text behind it.
abbrev memory : Memory
memory x =
    if leb 0x200 x
    then char_at (0x6f ∷ 0x6b ∷ []) (x - 0x200)
    else char_at (format_of pieces) (x - 0x100)

spelled : format_of pieces ≡ 0x76 ∷ 0x5c ∷ 0x25 ∷ 0x25 ∷ 0x30 ∷ 0x34 ∷ 0x78 ∷ 0x25 ∷ 0x73 ∷ []
unfolding format_of spell spell_width
spelled = refl

format_held : Holds memory 0x100 (format_of pieces)
format_held i le =
    rw (low i (omega (arith, ap length spelled))) (ap (char_at (format_of pieces)) (omega arith))
  where
    low : (i : ℕ) → i ≤ 9 → leb 0x200 (0x100 + i) ≡ false
    low i le = ground arith

text_held : Holds memory 0x200 (0x6f ∷ 0x6b ∷ [])
text_held i le = rw (high i) (ap (char_at (0x6f ∷ 0x6b ∷ [])) (omega arith))
  where
    high : (i : ℕ) → leb 0x200 (0x200 + i) ≡ true
    high i = ground arith

proper : AllProper 17 memory pieces
unfolding AllProper IsProper NoZero
proper = (
  (omega arith, (λ e. absurd (omega (arith, e))), (λ e. absurd (omega (arith, e)))),
  (
    omega arith,
    (
      omega arith,
      ((text_held, (omega arith, omega arith, (omega arith, omega arith, tt)), omega arith), tt),
    ),
  ),
)

bputint_lem_example :
    bputint 17 true memory 0x7000 4 0xbe 16 ≡ some (trim 4 (number_characters 0xbe 16) ∷ [])
bputint_lem_example =
    bputint_lem memory 0x7000 0xbe 16 17 (omega arith) 4 (omega arith) (omega arith)

four_digits : trim 4 (number_characters 0xbe 16) ≡ 0x30 ∷ 0x30 ∷ 0x42 ∷ 0x45 ∷ []
unfolding trim number_characters extend_sign tiny_bios.Text.itoah tiny_bios.Text.itoah_loop
    tiny_bios.Text.hex_character
four_digits = refl

read_hex-bputint_example :
    (shown : List ℕ) × (bputint 17 true memory 0x7000 4 0xbe 16 ≡ some (shown ∷ []))
    × (read_hex 0 shown ≡ extend_sign 0xbe)
read_hex-bputint_example =
    read_hex-bputint memory 0x7000 0xbe 16 17 (omega arith) 4 (omega arith) (omega arith) refl

vfblogf_lem_example :
    vfblogf 17 true memory 0x7000 9 0x100 (all_arguments pieces)
    ≡ some (all_calls pieces, all_counted pieces)
vfblogf_lem_example =
    vfblogf_lem 17 (omega arith) memory 0x7000 (omega arith) pieces 9 0x100 format_held proper
      (omega arith)

-- A machine whose line is always ready.
abbrev ready_line : Hardware
ready_line log bits port = 0x20

line-IsReady : IsReady 0x3f8 ready_line
line-IsReady log = refl

blogf-Returns_example :
    Returns
      (λ n after.
        (n ≡ all_counted pieces)
        × (sent 0x3f8 after ≡ after_message (joined (all_calls pieces)) (sent 0x3f8 [])))
      (blogf 17 9 (serial_console 1 0x3f8) memory 0x7000 0x100 (all_arguments pieces) ready_line [])
blogf-Returns_example =
    blogf-Returns 0x3f8 ready_line line-IsReady 0 17 memory 0x7000 pieces 9 0x100 [] (omega arith)
      (omega arith) format_held proper (omega arith)
