-- ===== src/Pci/Registers.antt =====
-- src/include/drivers/pci/pci_util.h: the self test register, the base address registers and the
-- fields of a dword of the configuration space.
use tiny_bios.Prelude.{ℕ, ◌+◌, ◌*◌, ◌>>>◌, bit_and, Bool, ◌==◌, u8, u16, if◌then◌else◌}
use tiny_bios.Port.{Cmd, pure, ◌>>=◌}
use tiny_bios.Pci.{ConfigAddress, PciDevice, read_config}

unfoldable pub io_base : ℕ → ℕ
io_base pci_reg = u16 pci_reg

unfoldable pub io_limit : ℕ → ℕ
io_limit pci_reg = u16 (pci_reg >>> 16)

-- The raw register; the device comes back with its address.
unfoldable pub read_bist : PciDevice → Cmd (ℕ × PciDevice)
read_bist dev = do
  (v, a) ← read_config (record (dev.address) { offset = 0 }) 0x0c
  pure (u8 (v >>> 24), record dev { address = a })

-- The low four bits are the completion code.
unfoldable pub selftest_success : PciDevice → Cmd (Bool × PciDevice)
selftest_success dev = do (reg, dev') ← read_bist dev; pure (bit_and reg 0x0f == 0, dev')

unfoldable pub read_bar : ConfigAddress → (bar : ℕ) → Cmd (ℕ × ConfigAddress)
read_bar a bar = read_config a (0x10 + bar * 4)

-- `pci_bar`, as its raw value.
unfoldable pub io_bar : ℕ → Bool
io_bar bar = bit_and bar 1 == 1

unfoldable pub decode_io_bar : ℕ → ℕ
decode_io_bar bar = bit_and bar 0xfffffffc

-- The bit field `type` of a memory bar is its bits 1 and 2.
unfoldable pub decode_mem_bar : ℕ → ℕ
decode_mem_bar bar =
    let type = bit_and (bar >>> 1) 3 in
    if type == 0 then bit_and bar 0xfffffff0 else (if type == 1 then bit_and bar 0x0000fff0 else 0)

unfoldable pub decode_bar : ℕ → ℕ
decode_bar bar = if io_bar bar then decode_io_bar bar else decode_mem_bar bar
