-- ===== src/Context.antt =====
-- src/stacks/ctx.c: keeping the processor's state in memory from the heap. The registers are taken
-- as they are when the function starts.
pub mod Saved
pub mod Overrun
mod Tests
use tiny_bios.Prelude.{ℕ, List, [], ◌∷◌, ◌==◌, if◌then◌else◌}
use tiny_bios.Memory.{Memory}
use tiny_bios.Malloc.{Outcome, done, panicked, and_then, calloc}
use tiny_bios.Cpu.{
  Register, r8, r9, r10, r11, r12, r13, r14, r15, rdi, rsi, rbp, rsp, rbx, rdx, rcx, rax, Segment,
  cs, ds, es, ss, gs, fs, Processor, get_gpr, read_segment, store_register, store_segment,
  state_16b_size,
}

-- The order in which the segments and the registers are stored.
abbrev pub segment_order : List Segment
segment_order = cs ∷ es ∷ ds ∷ fs ∷ gs ∷ ss ∷ []

abbrev pub register_order : List Register
register_order =
    rax ∷ rbx ∷ rcx ∷ rdx ∷ rsi ∷ rdi ∷ rbp ∷ rsp ∷ r8 ∷ r9 ∷ r10 ∷ r11 ∷ r12 ∷ r13 ∷ r14 ∷ r15 ∷ []

unfoldable pub store_segments : Processor → (state : ℕ) → List Segment → Memory → Memory
store_segments cpu state [] m = m
store_segments cpu state (s ∷ rest) m =
    store_segments cpu state rest (store_segment state s (read_segment s cpu) m)

unfoldable pub store_registers : Processor → (state : ℕ) → List Register → Memory → Memory
store_registers cpu state [] m = m
store_registers cpu state (r ∷ rest) m =
    store_registers cpu state rest (store_register state r (get_gpr r cpu) m)

unfoldable pub store_state : Processor → (state : ℕ) → Memory → Memory
store_state cpu state m =
    store_registers cpu state register_order (store_segments cpu state segment_order m)

-- The memory is asked for with the size of a 16-bit state; without it, `panic_oom`.
unfoldable pub save_cpu_state : (fuel : ℕ) → Processor → Memory → Outcome ℕ
save_cpu_state fuel cpu m =
    and_then (calloc fuel 1 state_16b_size m)
      λ state m1. if state == 0 then panicked m1 else done state (store_state cpu state m1)
