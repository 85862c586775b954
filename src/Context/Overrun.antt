-- ===== src/Context/Overrun.antt =====
-- What keeping the state does to the heap that it takes its memory from.
use tiny_bios.Prelude.{ℕ, ◌+◌, ◌≤◌, ◌≡◌, ap, ◌∙◌, arith, List, length, u64, ◌==◌, false}
use tiny_bios.Memory.{Memory, load64, memset}
use tiny_bios.Malloc.{heap_first, aligned_size, done, calloc, previous, next, size}
use tiny_bios.Malloc.Blocks.{Block, IsHeap, FirstFit}
use tiny_bios.Malloc.Refine.{malloc-Granted}
use tiny_bios.Cpu.{r9, r10, r11, Processor, slot, load_register, state_16b_size}
use tiny_bios.Context.{store_state, save_cpu_state}
use tiny_bios.Context.Saved.{load_register-store_state}

-- The header at `h` links to what the registers held, and has its size from there too.
pub record Clobbered (cpu : Processor) (h : ℕ) (m : Memory) : Type 0 where
  pub previous_lost : previous m h ≡ u64 (cpu.gpr r11)
  pub next_lost : next m h ≡ u64 (cpu.gpr r10)
  pub size_lost : size m h ≡ u64 (cpu.gpr r9)

store_state-Clobbered :
    (cpu : Processor) (state : ℕ) (m : Memory)
    → Clobbered cpu (state + 32) (store_state cpu state m)
unfolding previous next size load_register slot
store_state-Clobbered cpu state m = record {
  previous_lost = load_register-store_state cpu state r11 m;
  next_lost =
      ap (load64 (store_state cpu state m)) (omega arith)
      ∙ load_register-store_state cpu state r10 m;
  size_lost =
      ap (load64 (store_state cpu state m)) (omega arith)
      ∙ load_register-store_state cpu state r9 m;
}

-- On a sound heap whose first fit for 28 bytes exists and is not exact, keeping the processor's state
-- returns the payload of that block, and the header 32 bytes behind its start, which is the next
-- block's where the chosen one is split, is overwritten by the registers `r11`, `r10` and `r9`.
pub save_cpu_state-Clobbered :
    (cpu : Processor) (m : Memory) (bs bs' : List Block) (off fuel : ℕ)
    → IsHeap m bs
    → FirstFit (aligned_size state_16b_size) bs off bs'
    → length bs ≤ fuel
    → (m' : Memory) × (save_cpu_state fuel cpu m ≡ done (heap_first m + off + 32) m')
      × Clobbered cpu (heap_first m + off + 32 + 32) m'
unfolding save_cpu_state calloc
save_cpu_state-Clobbered cpu m bs bs' off fuel hp f enough =
    let (m1, runs, granted) = malloc-Granted m bs bs' 28 off hp (omega arith) f fuel enough in
    let not_null : (heap_first m + off + 32 == 0) ≡ false = ground arith in
    (
      store_state cpu (heap_first m + off + 32) (memset (heap_first m + off + 32) 0 28 m1),
      rw runs (ground (arith, not_null)),
      store_state-Clobbered cpu (heap_first m + off + 32) _,
    )
