-- ===== src/Boot/Main.antt =====
-- The C entry point, from the first write to the halt.
use tiny_bios.Memory.{Memory}
use Prim.Native.String.{String}
