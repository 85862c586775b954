-- ===== src/Text.antt =====
-- src/stdlib/itoa.c, and the string functions of src/stdlib/string.c.
pub mod Hex
pub mod Strings
mod Tests
use tiny_bios.Prelude.{
  ℕ, zero, suc, ◌+◌, ◌-◌, ◌/◌, ◌^◌, bit_and, bit_or, Bool, true, false, ◌||◌, List, [], ◌∷◌, ◌==◌,
  ◌!=◌, ltb, Option, none, some, if◌then◌else◌, ◌>>>◌,
}
use tiny_bios.Memory.{Memory}

unfoldable pub hex_character : ℕ → ℕ
hex_character nibble = if ltb nibble 10 then bit_or nibble 0x30 else nibble - 0x0a + 0x41

-- The rounds that are left, with the characters that are written so far behind.
unfoldable pub itoah_loop : (left d : ℕ) → List ℕ → List ℕ
itoah_loop zero d dst = dst
itoah_loop (suc left) d dst = itoah_loop left (d >>> 4) (hex_character (bit_and d 0xf) ∷ dst)

-- The 16 characters, the highest first.
unfoldable pub itoah : ℕ → List ℕ
itoah d = itoah_loop 16 d []

-- The nibble with the carry of the round below.
unfoldable pub itoa_loop : (left d carry : ℕ) → List ℕ → List ℕ
itoa_loop zero d carry dst = dst
itoa_loop (suc left) d carry dst =
    let nibble = bit_and d 0xf + carry in
    if ltb 9 nibble
    then itoa_loop left (d >>> 4) 1 (bit_or (nibble - 0xa) 0x30 ∷ dst)
    else itoa_loop left (d >>> 4) 0 (bit_or nibble 0x30 ∷ dst)

unfoldable pub itoa : ℕ → List ℕ
itoa d = itoa_loop 16 d 0 []

-- The length, if the end is found in so many rounds.
unfoldable pub strlen : ℕ → Memory → (str i : ℕ) → Option ℕ
strlen zero m str i = none
strlen (suc fuel) m str i = if m (str + i) != 0 then strlen fuel m str (i + 1) else some i

-- From a byte on, with so many left.
unfoldable pub strncmp : (left : ℕ) → Memory → (s1 s2 : ℕ) → ℕ
strncmp zero m s1 s2 = 0
strncmp (suc left) m s1 s2 =
    let rest = strncmp left m (s1 + 1) (s2 + 1) in
    (if m s1 != m s2 then 1 else 0) + (if (m s1 == 0) || (m s2 == 0) then 0 else rest)
