-- ===== src/Pci/Bars.antt =====
-- The base address registers of `pci_util.h`.
use tiny_bios.Prelude.{ℕ, ◌-◌, ◌/◌, ◌%◌, ◌^◌, ◌<◌, ◌≡◌, arith, ◌==◌, if◌then◌else◌}
use tiny_bios.Prelude.Bits.{and_mask, and_high_mask}
use tiny_bios.Pci.Registers.{io_bar, decode_io_bar, decode_mem_bar, decode_bar}

-- For a bar of 32 bits: an I/O bar loses its two low bits, a 32-bit memory bar its four low bits,
-- a bar below 1 MB is cut to 16 bits, and the other kinds, the 64-bit one among them, give 0.
pub decode_bar_lem :
    (bar : ℕ)
    → bar < 2 ^ 32
    → decode_bar bar ≡ (
        if bar % 2 == 1
        then bar - bar % 4
        else if bar % 8 == 0
        then bar - bar % 16
        else if bar % 8 == 2
        then bar % 2 ^ 16 - bar % 16
        else 0)
unfolding decode_bar io_bar decode_io_bar decode_mem_bar
decode_bar_lem bar h = ground (
  arith,
  and_mask 1 bar,
  and_mask 2 (bar / 2),
  and_high_mask 2 30 bar,
  and_high_mask 4 28 bar,
  and_high_mask 4 12 bar,
)
