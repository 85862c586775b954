-- ===== src/Console.antt =====
-- src/console.c with src/include/console/console.h: formatted output to the default console device.
-- A call of the device's `tx_func` is the list of the characters that it is given; the calls that a
-- function makes are listed, the first one first. Characters are signed, as they are on x86.
pub mod Texts
pub mod Trim
pub mod Numbers
pub mod Pieces
pub mod Width
pub mod Rounds
pub mod Format
pub mod Device
mod Tests
use tiny_bios.Prelude.{
  ℕ, zero, suc, ◌+◌, ◌-◌, ◌*◌, ◌%◌, ◌^◌, bit_and, Bool, true, false, ◌||◌, Option, none, some, List,
  [], ◌∷◌, ◌++◌, ◌==◌, ◌!=◌, ltb, leb, u8, u32, sub64, if◌then◌else◌,
}
use tiny_bios.Memory.{Memory, store8, memset}
use tiny_bios.Text.{itoa, itoah, strlen}

infixl 5 ◌>>=◌
abbrev pub ◌>>=◌ : {A B : Type 0} → Option A → (A → Option B) → Option B
none >>= k = none
some a >>= k = k a

abbrev pub Calls : Type 0
Calls = List (List ℕ)

-- The characters at an address, so many of them.
unfoldable pub characters : Memory → (str n : ℕ) → List ℕ
characters m str zero = []
characters m str (suc n) = m str ∷ characters m (str + 1) n

-- No answer, where the end of the text is not found in so many bytes.
unfoldable pub blog : ℕ → (enabled : Bool) → Memory → (msg : ℕ) → Option Calls
blog fuel enabled m msg =
    if enabled then (do n ← strlen fuel m msg 0; some (characters m msg n ∷ [])) else some []

unfoldable pub bputchar : (enabled : Bool) → ℕ → Calls
bputchar enabled c = if enabled then (c ∷ []) ∷ [] else []

-- What `itoa` and `itoah` store.
unfoldable pub store_characters : List ℕ → ℕ → Memory → Memory
store_characters [] dst m = m
store_characters (c ∷ cs) dst m = store_characters cs (dst + 1) (store8 m dst c)

-- An `int` as the `unsigned long` that it is converted to.
unfoldable pub extend_sign : ℕ → ℕ
extend_sign d = if ltb (u32 d) (2 ^ 31) then u32 d else u32 d + (2 ^ 64 - 2 ^ 32)

unfoldable pub number_characters : (d base : ℕ) → List ℕ
number_characters d base = if base == 16 then itoah (extend_sign d) else itoa (extend_sign d)

-- Behind the zeros, of which so many are passed over at most.
unfoldable pub skip_zeros : (left : ℕ) → Memory → (start : ℕ) → ℕ
skip_zeros zero m start = start
skip_zeros (suc left) m start =
    let rest = skip_zeros left m (start + 1) in if m start != 0x30 then start else rest

-- `tmp` is the address of the local array of 33 characters.
unfoldable pub bputint :
    ℕ → (enabled : Bool) → Memory → (tmp : ℕ) → (leading_zeros d base : ℕ) → Option Calls
bputint fuel enabled m tmp leading_zeros d base =
    let m1 = store_characters (number_characters d base) tmp (memset tmp 0 33 m) in
    let first = skip_zeros 32 m1 tmp in
    do
      n ← strlen fuel m1 first 0
      start ← some (if n == 0 then first - 1 else first)
      len ← strlen fuel m1 start 0
      blog fuel enabled m1
          (if ltb len leading_zeros then sub64 start (leading_zeros - len) else start)

-- One round of the loop of `vfblogf`: where it leaves `format`, the arguments that are left,
-- `escaped`, what it adds to `written`, and its calls.
pub record Round : Type 0 where
  pub format : ℕ
  pub args : List ℕ
  pub escaped : Bool
  pub added : ℕ
  pub calls : Calls

-- `*format <= 0x39`
unfoldable pub is_low : ℕ → Bool
is_low c = leb c 0x39 || leb 0x80 c

-- The width that is read from `format` on, and where it ends.
unfoldable pub read_width : ℕ → Memory → (format lc : ℕ) → Option (ℕ × ℕ)
read_width zero m format lc = none
read_width (suc fuel) m format lc =
    let digit = bit_and (m format) 0x0f in
    let rest =
      read_width fuel m (format + 1)
        (lc + (if is_low (m (format + 1)) then 10 * digit else digit)) in
    if is_low (m format) then rest else some (lc, format)

-- The conversion whose letter is at `format`. It has no answer where an argument is missing.
module _ (fuel : ℕ) (enabled : Bool) (m : Memory) (tmp : ℕ) where
  unfoldable pub convert_text : (format : ℕ) → List ℕ → Option Round
  convert_text format [] = none
  convert_text format (s ∷ args) = do
    calls ← blog fuel enabled m s
    n ← strlen fuel m s 0
    some (record { format = format; args = args; escaped = false; added = n; calls = calls })

  unfoldable pub convert_number : (base lc format : ℕ) → List ℕ → Option Round
  convert_number base lc format [] = none
  convert_number base lc format (d ∷ args) = do
    calls ← bputint fuel enabled m tmp lc d base
    some (record { format = format; args = args; escaped = false; added = 4 + lc; calls = calls })

  unfoldable pub convert_character : (format : ℕ) → List ℕ → Option Round
  convert_character format [] = none
  convert_character format (c ∷ args) = some (record {
    format = format;
    args = args;
    escaped = false;
    added = 1;
    calls = bputchar enabled (u8 c);
  })

  unfoldable pub convert : (lc format : ℕ) → List ℕ → Option Round
  convert lc format args =
      if m format == 0x73
      then convert_text format args
      else if m format == 0x78
      then convert_number 16 lc format args
      else if m format == 0x64
      then convert_number 10 lc format args
      else if m format == 0x63
      then convert_character format args
      else some (record {
        format = format - 1;
        args = args;
        escaped = false;
        added = 1;
        calls = bputchar enabled (m (format - 1));
      })

  unfoldable pub format_round : (format : ℕ) → List ℕ → (escaped : Bool) → Option Round
  format_round format args true = some (record {
    format = format;
    args = args;
    escaped = false;
    added = 0;
    calls = bputchar enabled (m format);
  })
  format_round format args false =
      if m format == 0x5c
      then some (record { format = format; args = args; escaped = true; added = 0; calls = [] })
      else if m format == 0x25
      then (if m (format + 1) == 0x30
          then (do (lc, at) ← read_width fuel m (format + 1 + 1) 0; convert lc at args)
          else convert 0 (format + 1) args)
      else some (record {
        format = format;
        args = args;
        escaped = false;
        added = 1;
        calls = bputchar enabled (m format);
      })

  -- The `do` loop, with its calls and what `written` has at its end. A round that reads a 0 is the
  -- last one.
  unfoldable pub format_loop :
      ℕ → (format : ℕ) → List ℕ → (escaped : Bool) → (written : ℕ) → Option (Calls × ℕ)
  format_loop zero format args escaped written = none
  format_loop (suc rounds) format args escaped written = do
    r ← format_round format args escaped
    (if m r.format == 0 then some (r.calls, written + r.added) else (do
      (calls, total) ← format_loop rounds (r.format + 1) r.args r.escaped (written + r.added)
      some (r.calls ++ calls, total)))

  unfoldable pub vfblogf : (rounds : ℕ) → (format : ℕ) → List ℕ → Option (Calls × ℕ)
  vfblogf rounds format args =
      if enabled then format_loop rounds format args false 0 else some ([], 0)
