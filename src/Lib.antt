-- ===== src/Lib.antt =====
-- TinyBIOS, a small firmware for x86 machines: a model of its C code and theorems about it. Paths
-- below are from the repository's root.
--
-- The firmware brings a machine up in C from `src/c_entry.c`: a heap, the keyboard controller, the
-- interrupt controllers, the real-time clock, the PCI devices and the ATA drives behind them.
-- Drivers use the ports of `src/include/sys/io.h`; those that keep data take it from the heap.
--
-- Prelude: names, Boolean tests, lists measured by native numbers, the casts of C to fixed widths
--   (`u8` to `u64`) and the wrapping subtractions; Prelude/Bits proves laws of `&` and `|`.
-- Port: `src/include/sys/io.h`. A command reads the machine, which answers each port read from the
--   log of all that was done before, and returns, panics, or runs out of the rounds that a loop
--   without a bound was given. Port/Triples and Port/Guards are the ways to speak of all machines.
-- Device: the enumerations of `src/include/drivers/device.h`.
-- Memory: bytes at addresses, loads and stores of 32 and 64 bits, `memset` and `memcpy` of
--   `src/stdlib/string.c`.
-- Malloc: all of `src/mm/malloc.c` over that memory, with the header of `src/include/stdlib.h` at
--   its offsets. Malloc/Header and Malloc/Blocks are the layout, Malloc/Walk, Malloc/Insert,
--   Malloc/Allocate and Malloc/Refine lead to the refinement by a list of blocks; Malloc/Init is
--   about `heap_init`, Malloc/Exhausted about a full heap, Malloc/Fuse about merging, Malloc/Free about
--   freeing between blocks in use, Malloc/Broken about freeing in front of a free block. The walk along
--   the blocks is on fuel; the theorems say how much is enough.
-- Kbdctl: all of `src/drivers/kbdctl/8042.c`. Its polls count 5000 rounds in the code. Kbdctl/
--   Handshake and Kbdctl/Session treat the protocol, Kbdctl/Config the configuration byte.
-- Pci: `src/drivers/pci/pci.c` and `pci_util.c` with their headers. Pci/Registers has the self test
--   and the bars, Pci/Names the names of classes and subclasses and the lines that print them, which
--   are cut where C reads behind its table. The header of a device is the dwords that were read into
--   it, in order; the device array is a function of the index. A call of `calloc` for a device is a
--   parameter that grants or refuses. The loop over functions is on fuel, since its 3-bit counter
--   never reaches 8; Pci/Space is the configuration space of a machine, Pci/Slots says what a scan
--   records and Pci/Functions when the loop ends. A store behind the 32 places that `src/post.c`
--   allocates is one to that function of the index too.
-- Pic: `src/drivers/pic_8259/pic.c`; Pic/Chip is the documented 8259, run on the writes of a log.
-- Cmos: `src/drivers/cmos/cmos.c` and its header. The wait for the end of an update is on fuel.
--   The memory map is a list of entries, whose allocation is not modelled.
-- Ata: `src/drivers/ata/ata.c` and `ata_util.c` with their header. The calls of the allocator are a
--   parameter that grants or refuses each request; the array of devices is a list. Ata/Controllers
--   brings the drives up.
-- Serial: `src/drivers/serial/serial.c` and its header. Serial/Uart is the documented 16550, run on
--   the writes of a log. One wait polls 50000 times in the code; the loop around it is on fuel.
-- Startup: `src/drivers/device.c`, over any driver.
-- Text: `src/stdlib/itoa.c`, and `strlen` and `strncmp` of `src/stdlib/string.c`. The characters are
--   a list, the first at the lowest address; the walk of `strlen` is on fuel.
-- Slab: `src/mm/slab.c`, `src/include/mm/slab.h` and `bitmap.h`, over the same memory. Slab/Layout
--   and Slab/Init say where the objects lie, Slab/Objects what a call does, Slab/Session what many do.
-- Console: `src/console.c`. A format, its texts and the buffer of a number are bytes in memory; the
--   calls of the device are listed, and Console/Device sends them. Console/Pieces spells formats,
--   Console/Numbers is about `bputint`, Console/Width, Console/Rounds and Console/Format about
--   `vfblogf`. The loops over a format and a text are on fuel.
-- Idt: `src/interrupts/idt.c` and its header, and in Idt/Unhandled the default handler of
--   `default_int_handler.c`. The table is the bytes that the processor reads;
--   Idt/Gates is the documented gate, Idt/Table the table as a function from vectors to handlers.
-- Pit: `src/drivers/pit/pit.c` and its header. Pit/Channel is channel 0 of the documented 8254.
-- Paging: `src/mm/paging.c` and its header. A table is a function of the index.
-- Fwcfg: `src/mainboards/qemu/fwcfg/fwcfg.c` with its header, and `memory_init_late.c` beside it.
--   Fwcfg/Stream is a device with its data at port 0x510, which is read, though 0x511 is documented;
--   Fwcfg/Directory is the search for a file, Fwcfg/MemoryMap what is read from it and Fwcfg/Init the
--   whole. The byte swaps of `<byteswap.h>` and the allocator's answers are parameters; the loop over
--   the file is on fuel.
-- Framebuffer: `src/mainboards/qemu/bochsfb.c` and its header; Framebuffer/Registers is the
--   documented device.
-- Rom: `src/romcall/romcall.c` and its header, with the allocator as a parameter.
-- Boot: `src/post.c`, `src/c_entry.c` and `src/mainboards/qemu/superio/superio.c`. Boot/Sequence is
--   the order of the calls, Boot/Uart sends their texts over the serial port, Boot/Posted and
--   Boot/Main say what they leave behind. What the board does, the allocator's answers, the characters
--   that the console makes of a text and the addresses of the interrupt handlers are parameters. The
--   waits for the line and the clock and the loop over functions have one fuel, of which one round is
--   enough there.
-- Cpu: the registers and structures of `src/include/cpu/common.h`, Context `src/stacks/ctx.c` over
--   them and the heap: Context/Saved is what is kept, Context/Overrun what it does to the heap.
-- Panic: `src/panic.c` over the console; Panic/Shown says what is to be printed, Panic/Dump that it
--   is. Where the linker places a text is a parameter.
--
-- A port is read and written in the order of the C code. A hypothesis on the machine, such as the
-- documented answers of a chip, is a record or a condition on the function that answers. In every
-- component, Tests holds the concrete examples.
--
-- Not modelled: the assembly and the linker scripts; the switch to another context, the model specific registers and the registers of
-- the descriptor tables, which are inline assembly.
pub mod Prelude
pub mod Device
pub mod Port
pub mod Memory
pub mod Malloc
pub mod Kbdctl
pub mod Pci
pub mod Pic
pub mod Cmos
pub mod Ata
pub mod Text
pub mod Serial
pub mod Startup
pub mod Slab
pub mod Console
pub mod Idt
pub mod Pit
pub mod Paging
pub mod Fwcfg
pub mod Framebuffer
pub mod Rom
pub mod Boot
pub mod Cpu
pub mod Context
pub mod Panic
