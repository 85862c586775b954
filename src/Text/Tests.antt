-- ===== src/Text/Tests.antt =====
-- The theorems on text at a small memory.
use tiny_bios.Prelude.{◌-◌, ◌≡◌, ◌↔◌, arith, [], ◌∷◌, get_or, refl, ◌==◌, if◌then◌else◌}
use tiny_bios.Memory.{Memory}
use tiny_bios.Text.{itoa, itoa_loop, itoah, strncmp}
use tiny_bios.Text.Hex.{read_hex, read_hex-itoah}
use tiny_bios.Text.Strings.{Same, strncmp-Same}

-- "ab" at 16 and "ac" at 32.
abbrev two_strings : Memory
two_strings a =
    get_or (0x61 ∷ 0x62 ∷ 0 ∷ []) (a - 16) (if a == 32 then 0x61 else (if a == 33 then 0x63 else 0))

read_hex-itoah_example : read_hex 0 (itoah 0xdeadbeef) ≡ 0xdeadbeef
read_hex-itoah_example = read_hex-itoah 0xdeadbeef (omega arith)

strncmp-Same_example : (strncmp 3 two_strings 16 32 ≡ 0) ↔ Same 3 two_strings 16 32
strncmp-Same_example = strncmp-Same 3 two_strings 16 32

-- 16 is written as 10 is.
itoa_of_16 : itoa 16 ≡ itoa 10
unfolding itoa itoa_loop
itoa_of_16 = refl
