-- ===== src/Cpu.antt =====
-- src/include/cpu/common.h: the processor's registers, and the structures that keep them. A register
-- is read and written by inline assembly, whose effect is the one of its instruction.
use tiny_bios.Prelude.{ℕ, ◌+◌, ◌*◌, ◌^◌, ◌==◌, u16, u32, u64, if◌then◌else◌}
use tiny_bios.Memory.{Memory, load16, load64, store16, store64}

-- `CR0_SETTING`
pub data Cr0Setting : Type 0 where
  cr0_pe cr0_mp cr0_em cr0_ts cr0_et cr0_ne cr0_wp cr0_am cr0_nw cr0_cd cr0_pg : Cr0Setting

unfoldable pub setting_bit : Cr0Setting → ℕ
setting_bit cr0_pe = 2 ^ 0
setting_bit cr0_mp = 2 ^ 1
setting_bit cr0_em = 2 ^ 2
setting_bit cr0_ts = 2 ^ 3
setting_bit cr0_et = 2 ^ 4
setting_bit cr0_ne = 2 ^ 5
setting_bit cr0_wp = 2 ^ 16
setting_bit cr0_am = 2 ^ 18
setting_bit cr0_nw = 2 ^ 29
setting_bit cr0_cd = 2 ^ 30
setting_bit cr0_pg = 2 ^ 31

pub data Register : Type 0 where
  r8 r9 r10 r11 r12 r13 r14 r15 rdi rsi rbp rsp rbx rdx rcx rax : Register

-- The members of `cpu_segments`, in their order.
pub data Segment : Type 0 where
  cs ds es ss gs fs : Segment

-- The control registers that the firmware reads and writes.
pub data Control : Type 0 where
  cr0 cr3 cr4 : Control

-- What the instructions read and write.
pub record Processor : Type 0 where
  pub gpr : Register → ℕ
  pub segment : Segment → ℕ
  pub control : Control → ℕ

-- `get_gpr(reg)`: `get_r8` to `get_rax`.
unfoldable pub get_gpr : Register → Processor → ℕ
get_gpr r cpu = u64 (cpu.gpr r)

-- `get_cr0`, `get_cr3` and `get_cr4`: the low 32 bits.
unfoldable pub get_control : Control → Processor → ℕ
get_control c cpu = u32 (cpu.control c)

unfoldable pub control_code : Control → ℕ
control_code cr0 = 0
control_code cr3 = 3
control_code cr4 = 4

-- `set_cr0`, `set_cr3` and `set_cr4`.
unfoldable pub set_control : Control → ℕ → Processor → Processor
set_control c v cpu = record cpu {
  control = λ d. if control_code d == control_code c then u32 v else cpu.control d;
}

-- `read_cs` to `read_gs`.
unfoldable pub read_segment : Segment → Processor → ℕ
read_segment s cpu = u16 (cpu.segment s)

unfoldable pub segment_slot : Segment → ℕ
segment_slot cs = 0
segment_slot ds = 1
segment_slot es = 2
segment_slot ss = 3
segment_slot gs = 4
segment_slot fs = 5

-- `write_ds` to `write_gs`; there is none for the code segment.
unfoldable pub write_segment : Segment → ℕ → Processor → Processor
write_segment s v cpu = record cpu {
  segment = λ t. if segment_slot t == segment_slot s then u16 v else cpu.segment t;
}

-- The members of `cpu_state_64b` before its segments take eight bytes each, in this order; `r14`
-- has two bytes, and padding behind it.
unfoldable pub slot : Register → ℕ
slot r15 = 0
slot r14 = 1
slot r13 = 2
slot r12 = 3
slot r11 = 4
slot r10 = 5
slot r9 = 6
slot r8 = 7
slot rsp = 8
slot rbp = 9
slot rdi = 10
slot rsi = 11
slot rdx = 12
slot rcx = 13
slot rbx = 14
slot rax = 15

-- `state->reg = v`
unfoldable pub store_register : (state : ℕ) → Register → ℕ → Memory → Memory
store_register state r v m =
    if slot r == 1 then store16 m (state + 8 * slot r) v else store64 m (state + 8 * slot r) v

-- `state->reg`
unfoldable pub load_register : (state : ℕ) → Register → Memory → ℕ
load_register state r m =
    if slot r == 1 then load16 m (state + 8 * slot r) else load64 m (state + 8 * slot r)

-- `state->segments.seg = v`
unfoldable pub store_segment : (state : ℕ) → Segment → ℕ → Memory → Memory
store_segment state s v m = store16 m (state + 128 + 2 * segment_slot s) v

-- `sizeof(cpu_state_16b)`: eight registers and six segments, two bytes each.
abbrev pub state_16b_size : ℕ
state_16b_size = 28
