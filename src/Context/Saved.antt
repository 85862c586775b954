-- ===== src/Context/Saved.antt =====
-- What the saved registers read.
use mathlib.Core.List.{Memᴰ}
use tiny_bios.Prelude.{
  ℕ, ◌+◌, ◌*◌, ◌^◌, ◌≤◌, ◌<◌, ◌≡◌, ◌∙◌, refl, arith, List, [], ◌∷◌, ◌==◌, u16, u64, if◌then◌else◌,
}
use tiny_bios.Memory.{Memory, load16}
use tiny_bios.Memory.Words.{
  Apart, store16-other, store64-other, load16-store16_same, load64-store64_same, load64_ext,
}
use tiny_bios.Cpu.{Register, rax, Processor, slot, get_gpr, store_register, load_register}
use tiny_bios.Context.{register_order, store_registers, store_state}

-- What a register's member keeps of a value: `r14` has 16 bits.
abbrev pub kept : Register → ℕ → ℕ
kept r v = if slot r == 1 then u16 v else u64 v

module _ (state : ℕ) (r : Register) (v : ℕ) (m : Memory) where
  store_register-other :
      (x : ℕ) → Apart (state + 8 * slot r) 8 x 1 → store_register state r v m x ≡ m x
  unfolding store_register
  store_register-other x apart =
      ground
        (arith, store16-other m (state + 8 * slot r) v x, store64-other m (state + 8 * slot r) v x)

  load_register-store_register :
      v < 2 ^ 64 → load_register state r (store_register state r v m) ≡ kept r v
  unfolding store_register load_register
  load_register-store_register small = ground (
    arith,
    load16-store16_same m (state + 8 * slot r) v,
    load64-store64_same m (state + 8 * slot r) v,
  )

load_register_ext :
    (state : ℕ) (r : Register) (m m' : Memory)
    → ((x : ℕ) → state + 8 * slot r ≤ x → x < state + 8 * slot r + 8 → m' x ≡ m x)
    → load_register state r m' ≡ load_register state r m
unfolding load_register load16
load_register_ext state r m m' same = ground (
  arith,
  load64_ext m m' (state + 8 * slot r) same,
  same (state + 8 * slot r),
  same (state + 8 * slot r + 1),
)

-- Each register of the list has its slot below the one before.
abbrev Descending : ℕ → List Register → Type 0
Descending n [] = Unit
Descending n (r ∷ rest) = (slot r < n) × Descending (slot r) rest

module _ (cpu : Processor) (state : ℕ) where
  -- Nothing from the slot on is written.
  store_registers-other :
      (n : ℕ) (rs : List Register) (m : Memory) (x : ℕ)
      → Descending n rs
      → state + 8 * n ≤ x
      → store_registers cpu state rs m x ≡ m x
  unfolding store_registers
  store_registers-other n [] m x d above = refl
  store_registers-other n (r ∷ rest) m x d above =
      store_registers-other (slot r) rest _ x d.1 (omega (arith, d.0))
      ∙ store_register-other state r (get_gpr r cpu) m x (omega (arith, d.0))

  load_register-store_registers :
      (n : ℕ) (rs : List Register) (r : Register) (m : Memory)
      → Descending n rs
      → Memᴰ r rs
      → load_register state r (store_registers cpu state rs m) ≡ kept r (cpu.gpr r)
  unfolding store_registers get_gpr
  load_register-store_registers n [] r m d i = elim i [ ]
  load_register-store_registers n (s ∷ rest) r m d (Memᴰ.head e) = rw e (
      load_register_ext state s _ _ (λ x p q. store_registers-other (slot s) rest _ x d.1 p)
      ∙ load_register-store_register state s (u64 (cpu.gpr s)) m (omega arith)
      ∙ ground arith)
  load_register-store_registers n (s ∷ rest) r m d (Memᴰ.tail i) =
      load_register-store_registers (slot s) rest r _ d.1 i

pub register_order-all : (r : Register) → Memᴰ r register_order
register_order-all rax = Memᴰ.head refl
register_order-all _ = search (Memᴰ.head, Memᴰ.tail) depth 20

register_order-Descending : Descending 16 register_order
unfolding slot
register_order-Descending = omega arith

-- Each register that is kept reads back from the kept state as it was, in 64 bits, but `r14`, of
-- which the low 16 bits are kept.
pub load_register-store_state :
    (cpu : Processor) (state : ℕ) (r : Register) (m : Memory)
    → load_register state r (store_state cpu state m) ≡ kept r (cpu.gpr r)
unfolding store_state
load_register-store_state cpu state r m =
    load_register-store_registers cpu state 16 register_order r _ register_order-Descending
      (register_order-all r)
