-- ===== src/Console/Pieces.antt =====
-- Formats as lists of pieces: how a piece is spelled, which arguments it takes and what it prints.
use tiny_bios.Prelude.{
  ℕ, ◌+◌, ◌-◌, ◌<◌, ◌≤◌, ◌≢◌, List, [], ◌∷◌, ◌++◌, length, ◌==◌, ltb, u8, if◌then◌else◌,
}
use Prim.Native.Nat.{max}
use tiny_bios.Memory.{Memory}
use tiny_bios.Console.{Calls, number_characters}
use tiny_bios.Console.Texts.{Holds, NoZero}
use tiny_bios.Console.Trim.{trim}

pub data Piece : Type 0 where
  plain : ℕ → Piece
  -- behind a backslash
  literal : ℕ → Piece
  -- the address of a text, and its characters
  text : ℕ → List ℕ → Piece
  -- a width, 0 for none, and a number
  hexadecimal decimal : ℕ → ℕ → Piece
  character : ℕ → Piece

unfoldable pub spell_width : ℕ → List ℕ
spell_width width =
    if width == 0
    then []
    else if ltb width 10
    then 0x30 ∷ (0x30 + width) ∷ []
    else 0x30 ∷ 0x31 ∷ (0x30 + (width - 10)) ∷ []

unfoldable pub spell : Piece → List ℕ
spell (plain c) = c ∷ []
spell (literal c) = 0x5c ∷ c ∷ []
spell (text a cs) = 0x25 ∷ 0x73 ∷ []
spell (hexadecimal width d) = 0x25 ∷ (spell_width width ++ 0x78 ∷ [])
spell (decimal width d) = 0x25 ∷ (spell_width width ++ 0x64 ∷ [])
spell (character c) = 0x25 ∷ 0x63 ∷ []

unfoldable pub arguments_of : Piece → List ℕ → List ℕ
arguments_of (plain c) args = args
arguments_of (literal c) args = args
arguments_of (text a cs) args = a ∷ args
arguments_of (hexadecimal width d) args = d ∷ args
arguments_of (decimal width d) args = d ∷ args
arguments_of (character c) args = c ∷ args

unfoldable pub printed : Piece → List ℕ
printed (plain c) = c ∷ []
printed (literal c) = c ∷ []
printed (text a cs) = cs
printed (hexadecimal width d) = trim (max 1 width) (number_characters d 16)
printed (decimal width d) = trim (max 1 width) (number_characters d 10)
printed (character c) = u8 c ∷ []

-- What `written` counts: an escaped character is not counted, and a number counts as four
-- characters and its width.
unfoldable pub counted : Piece → ℕ
counted (plain c) = 1
counted (literal c) = 0
counted (text a cs) = length cs
counted (hexadecimal width d) = 4 + width
counted (decimal width d) = 4 + width
counted (character c) = 1

unfoldable pub format_of : List Piece → List ℕ
format_of [] = []
format_of (p ∷ ps) = spell p ++ format_of ps

unfoldable pub all_arguments : List Piece → List ℕ
all_arguments [] = []
all_arguments (p ∷ ps) = arguments_of p (all_arguments ps)

-- One call for each piece, and one more for the 0 that ends the format.
unfoldable pub all_calls : List Piece → Calls
all_calls [] = (0 ∷ []) ∷ []
all_calls (p ∷ ps) = printed p ∷ all_calls ps

unfoldable pub all_counted : List Piece → ℕ
all_counted [] = 1
all_counted (p ∷ ps) = counted p + all_counted ps

-- A piece that is spelled without ambiguity, whose text, of less than `fuel` characters, is in the
-- memory, and whose width is 16 at most.
unfoldable pub IsProper : ℕ → Memory → Piece → Type 0
IsProper fuel m (plain c) = (0 < c) × (c ≢ 0x5c) × (c ≢ 0x25)
IsProper fuel m (literal c) = 0 < c
IsProper fuel m (text a cs) = Holds m a cs × NoZero cs × (length cs < fuel)
IsProper fuel m (hexadecimal width d) = width ≤ 16
IsProper fuel m (decimal width d) = width ≤ 16
IsProper fuel m (character c) = Unit

unfoldable pub AllProper : ℕ → Memory → List Piece → Type 0
AllProper fuel m [] = Unit
AllProper fuel m (p ∷ ps) = IsProper fuel m p × AllProper fuel m ps
