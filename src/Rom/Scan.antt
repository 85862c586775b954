-- ===== src/Rom/Scan.antt =====
-- Which ROMs the scan finds.
use tiny_bios.Prelude.{
  ℕ, zero, suc, ◌+◌, ◌-◌, ◌*◌, ◌%◌, ◌<◌, ◌≡◌, refl, arith, false, Option, some, [], ◌∷◌, ◌!=◌, ◌&&◌,
  u32, leb, ltb, if◌then◌else◌, ◌∙◌, ap,
}
use tiny_bios.Memory.{Memory, load16}
use tiny_bios.Memory.Words.{Apart}
use tiny_bios.Memory.Loops.{memcpy_lem}
use tiny_bios.Port.{Log, Hardware, message}
use tiny_bios.Port.Triples.{Returns, returns}
use tiny_bios.Rom.{
  rom_header_present, rom_get_size, copy_granted, copy_rom_to_ram, scan_entry, scan_loop,
  find_and_exec_roms,
}

-- The signature of an option ROM is the byte 0x55 and then the byte 0xaa.
pub record HasSignature (m : Memory) (entry : ℕ) : Type 0 where
  pub byte_0 : m entry ≡ 0x55
  pub byte_1 : m (entry + 1) ≡ 0xaa

rom_get_size-lt : (m : Memory) (mem : ℕ) → ((y : ℕ) → m y < 256) → rom_get_size m mem < 256
unfolding rom_get_size
rom_get_size-lt m mem bytes = bytes (mem + 2)

module _ (granted : ℕ → Memory → Option ℕ) (free : ℕ → Memory → Memory) where
  not_found : (m : Memory) (entry : ℕ) → HasSignature m entry → rom_header_present m entry ≡ false
  unfolding rom_header_present load16
  not_found m entry signed = rw (signed.byte_0, signed.byte_1) refl

  scan_loop-signed :
      (left entry : ℕ) (m : Memory) (hw : Hardware) (log : Log)
      → ((k : ℕ) → k < left → HasSignature m (entry + k * 0x2000))
      → Returns (λ m' after. (m' ≡ m) × (after ≡ log)) (scan_loop granted free left entry m hw log)
  unfolding scan_loop scan_entry
  scan_loop-signed zero entry m hw log signed = returns (refl, refl)
  scan_loop-signed (suc left) entry m hw log signed =
      rw (not_found m entry (here (signed 0 (omega arith)))) (
        scan_loop-signed left (entry + 0x2000) m hw log
          (λ k lt. there k (signed (suc k) (omega arith))))
    where
      at : (e f : ℕ) → e ≡ f → HasSignature m e → HasSignature m f
      at e f same s = record {
        byte_0 = ap m {x = f} {y = e} (omega (arith, same)) ∙ s.byte_0;
        byte_1 = ap m {x = f + 1} {y = e + 1} (omega (arith, same)) ∙ s.byte_1;
      }

      here : HasSignature m (entry + 0 * 0x2000) → HasSignature m entry
      here s = at (entry + 0 * 0x2000) entry (omega arith) s

      there :
          (k : ℕ)
          → HasSignature m (entry + suc k * 0x2000)
          → HasSignature m (entry + 0x2000 + k * 0x2000)
      there k s = at (entry + suc k * 0x2000) (entry + 0x2000 + k * 0x2000) (omega arith) s

  -- Where a ROM with the documented signature, 0x55 and then 0xaa, starts at each of the 24 addresses that are
  -- scanned, the scan returns with the memory as it was, and has reported nothing but its start: it finds none of them.
  pub find_and_exec_roms-signed :
      (m : Memory) (hw : Hardware) (log : Log)
      → ((k : ℕ) → k < 24 → HasSignature m (0xc0000 + k * 0x2000))
      → Returns
          (λ m' after.
            (m' ≡ m) × (after ≡ message "Scanning for executable option roms...\n" [] ∷ log))
          (find_and_exec_roms granted free m hw log)
  unfolding find_and_exec_roms
  find_and_exec_roms-signed m hw log signed = scan_loop-signed 24 0xc0000 m hw _ signed

  -- A ROM whose two signature bytes are the other way round, of whole blocks of eight kilobytes, is copied to the
  -- memory that the allocator grants apart from it, and no other byte changes.
  pub copy_rom_to_ram-Returns :
      (mem p : ℕ) (m : Memory) (hw : Hardware) (log : Log)
      → load16 m mem ≡ 0x55aa
      → rom_get_size m mem % 8 ≡ 0
      → ((y : ℕ) → m y < 256)
      → granted (rom_get_size m mem * 1024) m ≡ some p
      → Apart mem (rom_get_size m mem * 1024) p (rom_get_size m mem * 1024)
      → Returns
          (λ r after.
            (r.0 ≡ some p)
            × ((x : ℕ)
                → r.1 x ≡ (
                    if leb p x && ltb x (p + rom_get_size m mem * 1024)
                    then m (mem + (x - p))
                    else m x)))
          (copy_rom_to_ram granted free mem m hw log)
  unfolding copy_rom_to_ram copy_granted rom_header_present
  copy_rom_to_ram-Returns mem p m hw log signed blocks bytes grant apart = rw signed (
      rw (size_small (rom_get_size m mem) (size_byte)) (
        rw (whole (rom_get_size m mem) blocks) (
          rw grant
            (returns (refl, λ x. memcpy_lem mem p (rom_get_size m mem * 1024) m x apart bytes)))))
    where
      size_byte : rom_get_size m mem < 256
      size_byte = rom_get_size-lt m mem bytes

      size_small : (s : ℕ) → s < 256 → u32 (s * 1024) ≡ s * 1024
      size_small s lt = omega arith

      whole : (s : ℕ) → s % 8 ≡ 0 → (s * 1024 % 0x2000 != 0) ≡ false
      whole s e = ground arith
