-- ===== src/Idt.antt =====
-- src/interrupts/idt.c with src/include/interrupts/idt.h: the interrupt descriptor table, as the
-- bytes that the processor reads. The table has two bytes `size`, eight bytes `ptr` and 256 entries
-- of 16 bytes. The allocator's answer is a parameter.
pub mod Unhandled
pub mod Fields
pub mod Gates
pub mod Table
mod Tests
use tiny_bios.Prelude.{
  ℕ, zero, suc, ◌+◌, ◌-◌, ◌*◌, ◌/◌, ◌%◌, ◌^◌, Option, none, some, u16, u32, ◌>>>◌, ◌<<◌,
}
use tiny_bios.Memory.{Memory, load16, store16, store32, store64, memset}
use tiny_bios.Port.{Cmd, pure, panic}

abbrev pub entry_size : ℕ
entry_size = 16

abbrev pub table_size : ℕ
table_size = 10 + 256 * entry_size

unfoldable pub entry_at : (idt entry : ℕ) → ℕ
entry_at idt entry = idt + 10 + entry * entry_size

-- A store to a bit field of a 16-bit word: `width` bits from bit `low` on.
unfoldable pub set_field : (at low width v : ℕ) → Memory → Memory
set_field at low width v m =
    let word = load16 m at in
    store16 m at (word - word / 2 ^ low % 2 ^ width * 2 ^ low + v % 2 ^ width * 2 ^ low)

-- The word of `segment_selector`, and the one of the fields from `ist` to `present`.
abbrev pub segment : ℕ → ℕ
segment at = at + 2

abbrev pub flags : ℕ → ℕ
flags at = at + 4

unfoldable pub set_segment : (at index use_ldt privilege : ℕ) → Memory → Memory
set_segment at index use_ldt privilege m =
    let m1 = set_field (segment at) 14 2 privilege m in
    let m2 = set_field (segment at) 13 1 use_ldt m1 in set_field (segment at) 0 13 index m2

unfoldable pub set_offsets : (at handler : ℕ) → Memory → Memory
set_offsets at handler m =
    let lo = u16 handler in
    let mi = u16 (handler >>> 16) in
    let hi = u32 (handler >>> 32) in store32 (store16 (store16 m at lo) (at + 6) mi) (at + 8) hi

unfoldable pub set_flags : (at present int_gate_type : ℕ) → Memory → Memory
set_flags at present int_gate_type m =
    set_field (flags at) 8 4 int_gate_type (set_field (flags at) 15 1 present m)

unfoldable pub add_interrupt_handler : (idt entry handler : ℕ) → Memory → Memory
add_interrupt_handler idt entry handler m =
    let at = entry_at idt entry in
    let m1 = memset at 0 entry_size m in
    let m2 = set_segment at 0x10 0 0 m1 in
    let m3 = set_offsets at handler m2 in set_flags at 1 0x0e m3

-- The loop of `init_idt`, with `left` entries left.
unfoldable pub add_handlers : (left entry : ℕ) → (idt handler : ℕ) → Memory → Memory
add_handlers zero entry idt handler m = m
add_handlers (suc left) entry idt handler m =
    add_handlers left (entry + 1) idt handler (add_interrupt_handler idt entry handler m)

-- What `write_idtr` hands to the processor, and the memory.
pub record Loaded : Type 0 where
  pub idtr : ℕ
  pub memory : Memory

unfoldable pub fill_table : (idt default_int_handler : ℕ) → Memory → Memory
fill_table idt default_int_handler m =
    let m1 = store64 m (idt + 2) (idt + 10) in
    let m2 = store16 m1 idt (256 * 16 - 1) in add_handlers 256 0 idt default_int_handler m2

-- `granted` is the answer of `calloc`, which clears what it grants.
unfoldable pub init_idt : (granted : Option ℕ) → (default_int_handler : ℕ) → Memory → Cmd Loaded
init_idt none default_int_handler m = panic "No enough memory to setup interrupt handling"
init_idt (some idt) default_int_handler m =
    pure (record {
      idtr = idt;
      memory = fill_table idt default_int_handler (memset idt 0 table_size m);
    })
