-- ===== src/Framebuffer/Tests.antt =====
-- The frame buffer behind the default ports.
use tiny_bios.Prelude.{◌≡◌, refl, arith, []}
use tiny_bios.Device.{status_initialised}
use tiny_bios.Port.{Hardware}
use tiny_bios.Port.Triples.{Returns}
use tiny_bios.Pci.{ConfigAddress}
use tiny_bios.Framebuffer.{base_of, init_vga_controller}
use tiny_bios.Framebuffer.Registers.{IsMode, vbe_after, init_vga_controller-Returns}

abbrev newest_device : Hardware
newest_device log bits port = 0xb0c5

abbrev third : ConfigAddress
third = record { offset = 0; function = 0; device = 3; bus = 0; reserved = 0; enable = 1 }

default_base : base_of 0 ≡ 0x1ce
unfolding base_of
default_base = refl

init_vga_controller-Returns_example :
    Returns
      (λ s after. (s ≡ status_initialised) × IsMode (vbe_after (base_of 0) after).register)
      (init_vga_controller 0 third newest_device [])
init_vga_controller-Returns_example =
    init_vga_controller-Returns 0 third newest_device [] (omega (arith, default_base))
      (record { oldest = λ log e. omega arith; newest = λ log e. omega arith })
