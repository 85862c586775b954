-- ===== src/Rom/Tests.antt =====
-- A memory with a ROM's signature at each address that is scanned.
use tiny_bios.Prelude.{◌%◌, ◌≡◌, arith, none, [], ◌∷◌, ◌==◌, if◌then◌else◌}
use tiny_bios.Memory.{Memory}
use tiny_bios.Port.{Hardware, message}
use tiny_bios.Port.Triples.{Returns}
use tiny_bios.Rom.{find_and_exec_roms}
use tiny_bios.Rom.Scan.{find_and_exec_roms-signed}

abbrev roms : Memory
roms x = if x % 0x2000 == 0 then 0x55 else if x % 0x2000 == 1 then 0xaa else 0

abbrev silent : Hardware
silent log bits port = 0

find_and_exec_roms-signed_example :
    Returns
      (λ m' after.
        (m' ≡ roms) × (after ≡ message "Scanning for executable option roms...\n" [] ∷ []))
      (find_and_exec_roms (λ _ _. none) (λ _ m. m) roms silent [])
find_and_exec_roms-signed_example =
    find_and_exec_roms-signed (λ _ _. none) (λ _ m. m) roms silent []
      (λ k lt. record { byte_0 = ground arith; byte_1 = ground arith })
