-- ===== src/Framebuffer.antt =====
-- src/mainboards/qemu/bochsfb.c with src/include/mainboards/qemu/bochsfb.h: the frame buffer of
-- Bochs, whose registers are read and written behind their index.
pub mod Registers
mod Tests
use tiny_bios.Prelude.{ℕ, ◌+◌, ◌%◌, ◌^◌, Bool, ◌&&◌, ◌||◌, ◌!=◌, ltb, u16, u32, if◌then◌else◌}
use tiny_bios.Device.{DeviceStatus, status_not_present, status_initialised}
use tiny_bios.Port.{Cmd, pure, ◌>>=◌, ◌>>◌, inw, outw, outb}
use tiny_bios.Pci.{ConfigAddress, write_config}

abbrev pub ioidx : ℕ
ioidx = 0x01ce

abbrev pub ioval : ℕ
ioval = 0x01cf

pub data VbeIndex : Type 0 where
  idx_id idx_xres idx_yres idx_bpp idx_enable idx_bank idx_v_width idx_v_height idx_x_off idx_y_off
        idx_vmem :
      VbeIndex

-- The numbers of the enumerators.
unfoldable pub index_code : VbeIndex → ℕ
index_code idx_id = 0
index_code idx_xres = 1
index_code idx_yres = 2
index_code idx_bpp = 3
index_code idx_enable = 4
index_code idx_bank = 5
index_code idx_v_width = 6
index_code idx_v_height = 7
index_code idx_x_off = 8
index_code idx_y_off = 9
index_code idx_vmem = 10

unfoldable pub must_disable : (idx : ℕ) → Bool
must_disable idx = (idx != 0) && ltb idx 4

-- The port behind `addr`, cut to 16 bits.
unfoldable pub disable : (addr : ℕ) → Cmd Unit
disable addr = do outw (index_code idx_enable) addr; outw 0 (u16 (addr + 1))

unfoldable pub enable : (addr : ℕ) → Cmd Unit
enable addr = do outw (index_code idx_enable) addr; outw 1 (u16 (addr + 1))

unfoldable pub vbe_in : (addr idx : ℕ) → Cmd ℕ
vbe_in addr idx = do outw idx addr; inw (u16 (addr + 1))

unfoldable pub vbe_out : (addr v : ℕ) → VbeIndex → Cmd Unit
vbe_out addr v idx = do outw (index_code idx) addr; outw v (u16 (addr + 1))

unfoldable pub vbe_version : (addr : ℕ) → Cmd ℕ
vbe_version addr = vbe_in addr (index_code idx_id)

unfoldable pub base_of : (bar2 : ℕ) → ℕ
base_of bar2 = if bar2 != 0 then u16 bar2 else ioidx

-- The writes behind the check of the version.
unfoldable pub set_mode : (base : ℕ) → Cmd Unit
set_mode base = do
  disable base
  vbe_out base 0 idx_bank
  vbe_out base 32 idx_bpp
  vbe_out base 760 idx_xres
  vbe_out base 480 idx_yres
  vbe_out base 760 idx_v_width
  vbe_out base 480 idx_v_height
  vbe_out base 0 idx_x_off
  vbe_out base 0 idx_y_off
  vbe_out base 0x41 idx_enable
  outb 0x20 (u16 (base + 0x03c0))

-- `bar2` and `address` are fields of the PCI device.
unfoldable pub init_vga_controller : (bar2 : ℕ) → (address : ConfigAddress) → Cmd DeviceStatus
init_vga_controller bar2 address = do
  ver ← vbe_version (base_of bar2)
  (if ltb ver 0xb0c0 || ltb 0xb0c5 ver then pure status_not_present else (do
    set_mode (base_of bar2)
    write_config address 0x10 0x1000008
    pure status_initialised))
