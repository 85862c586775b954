-- ===== src/Rom.antt =====
-- src/romcall/romcall.c with src/include/romcall/romcall.h: the scan for option ROMs. The
-- allocator's answer to a request, and what freeing does to memory, are parameters.
pub mod Scan
mod Tests
use Prim.Native.String.{String}
use tiny_bios.Prelude.{
  ℕ, zero, suc, ◌+◌, ◌*◌, ◌%◌, ◌^◌, Bool, Option, none, some, List, [], ◌∷◌, ◌==◌, ◌!=◌, u32,
  if◌then◌else◌,
}
use tiny_bios.Memory.{Memory, load16, memcpy}
use tiny_bios.Port.{Cmd, pure, ◌>>=◌, ◌>>◌, blogf}

abbrev pub rom_exec_sign : ℕ
rom_exec_sign = 0x55aa

unfoldable pub rom_header_present : Memory → (mem : ℕ) → Bool
rom_header_present m mem = load16 m mem == rom_exec_sign

unfoldable pub rom_get_size : Memory → (mem : ℕ) → ℕ
rom_get_size m mem = m (mem + 2)

unfoldable pub rom_code_entry : (mem : ℕ) → ℕ
rom_code_entry mem = mem + 3

module _ (granted : (size : ℕ) → Memory → Option ℕ) (free : ℕ → Memory → Memory) where
  unfoldable pub copy_granted : Option ℕ → (mem size : ℕ) → Memory → Cmd (Option ℕ × Memory)
  copy_granted none mem size m = do blogf "Unable to allocate memory for rom\n" []; pure (none, m)
  copy_granted (some p) mem size m = pure (some p, memcpy mem p size m)

  unfoldable pub copy_rom_to_ram : (mem : ℕ) → Memory → Cmd (Option ℕ × Memory)
  copy_rom_to_ram mem m =
      let size = u32 (rom_get_size m mem * 1024) in
      if rom_header_present m mem
      then (if size % 0x2000 != 0
          then (do
            blogf "Incorrect rom size (0x%x), refusing to execute\n" (size ∷ [])
            pure (none, m))
          else copy_granted (granted size m) mem size m)
      else pure (none, m)

  unfoldable pub free_shadow : Option ℕ → Memory → Memory
  free_shadow none m = m
  free_shadow (some shadow) m = free shadow m

  unfoldable pub scan_entry : (entry : ℕ) → Memory → Cmd Memory
  scan_entry entry m =
      if rom_header_present m entry
      then (do
        blogf "Found possible option rom entry at 0x%x\n" (entry ∷ [])
        (shadow, m1) ← copy_rom_to_ram entry m
        pure (free_shadow shadow m1))
      else pure m

  -- The loop from an entry on, with so many entries left.
  unfoldable pub scan_loop : (left entry : ℕ) → Memory → Cmd Memory
  scan_loop zero entry m = pure m
  scan_loop (suc left) entry m = do m1 ← scan_entry entry m; scan_loop left (entry + 0x02000) m1

  -- From 0xc0000 to 0xf0000, in steps of 0x2000.
  unfoldable pub find_and_exec_roms : Memory → Cmd Memory
  find_and_exec_roms m = do
    blogf "Scanning for executable option roms...\n" []
    scan_loop 24 0xc0000 m
