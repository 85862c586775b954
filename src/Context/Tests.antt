-- ===== src/Context/Tests.antt =====
-- The processor's state with a number of its own in each register, and the heap after start-up.
use tiny_bios.Prelude.{◌+◌, ◌-◌, ◌≡◌, refl, arith, List, [], ◌∷◌, true, false}
use tiny_bios.Memory.{Memory}
use tiny_bios.Malloc.{heap_first, header_size, heap_init, is_free, aligned_size, done}
use tiny_bios.Malloc.Blocks.{block, Block, IsHeap, FirstFit, here}
use tiny_bios.Malloc.Init.{heap_init-IsHeap}
use tiny_bios.Cpu.{r14, Processor, slot, load_register, state_16b_size}
use tiny_bios.Context.{store_state, save_cpu_state}
use tiny_bios.Context.Saved.{kept, load_register-store_state}
use tiny_bios.Context.Overrun.{Clobbered, save_cpu_state-Clobbered}

abbrev zeros : Memory
zeros x = 0

abbrev numbered : Processor
numbered = record { gpr = λ r. 0x12340000 + slot r; segment = λ s. 8; control = λ c. 0 }

load_register-store_state_example :
    load_register 0x9000 r14 (store_state numbered 0x9000 zeros) ≡ kept r14 (numbered.gpr r14)
load_register-store_state_example = load_register-store_state numbered 0x9000 r14 zeros

-- A heap of 64 kB at 0x10000.
booted : Memory
booted = heap_init 0x10000 0x10000 zeros

zeros_taken : is_free zeros 0 ≡ false
unfolding is_free
zeros_taken = refl

booted-IsHeap : IsHeap booted (block (0x10000 - header_size) true ∷ [])
unfolding booted
booted-IsHeap =
    (heap_init-IsHeap 0x10000 0x10000 zeros (omega arith) (omega arith) (omega arith) (omega arith)
      zeros_taken).0

abbrev after_first : List Block
after_first = block 64 false ∷ block (0x10000 - header_size - 64) true ∷ []

first_fit :
    FirstFit (aligned_size state_16b_size) (block (0x10000 - header_size) true ∷ []) 0 after_first
unfolding aligned_size
first_fit = here (block (0x10000 - header_size) true) [] after_first refl (omega arith) refl

save_cpu_state-Clobbered_example :
    (m' : Memory) × (save_cpu_state 1 numbered booted ≡ done (heap_first booted + 0 + 32) m')
    × Clobbered numbered (heap_first booted + 0 + 32 + 32) m'
save_cpu_state-Clobbered_example =
    save_cpu_state-Clobbered numbered booted (block (0x10000 - header_size) true ∷ []) after_first 0
      1 booted-IsHeap first_fit (omega arith)
