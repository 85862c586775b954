-- ===== src/Idt/Table.antt =====
-- The table that the processor is given.
use tiny_bios.Prelude.{
  ℕ, zero, suc, ◌+◌, ◌-◌, ◌*◌, ◌^◌, ◌<◌, ◌≡◌, ◌≢◌, inl, inr, refl, sym, ◌∙◌, arith, some,
  if◌then◌else◌, Bool-cases, true, ◌==◌,
}
use tiny_bios.Memory.{Memory, load16, load64, store16, store64, memset}
use tiny_bios.Memory.Words.{store16-other, load16-store16_same, load64-store64_same, load64_ext}
use tiny_bios.Port.{Log, Hardware}
use tiny_bios.Port.Triples.{Returns, returns}
use tiny_bios.Idt.{entry_at, table_size, add_interrupt_handler, add_handlers, fill_table, init_idt}
use tiny_bios.Idt.Fields.{load16_ext}
use tiny_bios.Idt.Gates.{IsGate, IsGate-ext, IsGate-made, gate_other}

-- The table as a function from vectors to handlers.
pub record IsTable (m : Memory) (idt : ℕ) (handlers : ℕ → ℕ) : Type 0 where
  pub limit : load16 m idt ≡ 256 * 16 - 1
  pub base : load64 m (idt + 2) ≡ idt + 10
  pub gates : (v : ℕ) → v < 256 → IsGate m (entry_at idt v) (handlers v)

module _ (idt handler : ℕ) (small : handler < 2 ^ 64) where
  add-head :
      (e : ℕ) (m : Memory) (x : ℕ) → x < idt + 10 → add_interrupt_handler idt e handler m x ≡ m x
  unfolding add_interrupt_handler entry_at
  add-head e m x below = gate_other (idt + 10 + e * 16) handler m x (inr (omega arith))

  add-same :
      (e : ℕ) (m : Memory) → IsGate (add_interrupt_handler idt e handler m) (entry_at idt e) handler
  unfolding add_interrupt_handler
  add-same e m = IsGate-made (entry_at idt e) handler m small

  add-other :
      (e v other : ℕ) (m : Memory)
      → v ≢ e
      → IsGate m (entry_at idt v) other
      → IsGate (add_interrupt_handler idt e handler m) (entry_at idt v) other
  unfolding add_interrupt_handler entry_at
  add-other e v other m differ g =
      IsGate-ext m _ (idt + 10 + v * 16) other
        (λ x from to. gate_other (idt + 10 + e * 16) handler m x (ground arith)) g

  -- In a table of handlers, `add_interrupt_handler` sets the handler of one vector, of 256, and no other.
  pub add_interrupt_handler-IsTable :
      (e : ℕ) (m : Memory) (handlers : ℕ → ℕ)
      → IsTable m idt handlers
      → IsTable
          (add_interrupt_handler idt e handler m)
          idt
          (λ v. if e == v then handler else handlers v)
  add_interrupt_handler-IsTable e m handlers t = record {
    limit = load16_ext m _ idt (λ x from to. add-head e m x (omega arith)) ∙ t.limit;
    base = load64_ext m _ (idt + 2) (λ x from to. add-head e m x (omega arith)) ∙ t.base;
    gates = λ v below. elim (Bool-cases (e == v)) [
      | inl same ↦ rw same (ap-gate e v (ground arith) (add-same e m))
      | inr other ↦ rw other (add-other e v (handlers v) m (ground arith) (t.gates v below))
    ];
  }
    where
      ap-gate :
          (a b : ℕ)
          → a ≡ b
          → IsGate (add_interrupt_handler idt e handler m) (entry_at idt a) handler
          → IsGate (add_interrupt_handler idt e handler m) (entry_at idt b) handler
      ap-gate a b same g = rw (sym same) g

  add_handlers-head :
      (left e : ℕ) (m : Memory) (x : ℕ) → x < idt + 10 → add_handlers left e idt handler m x ≡ m x
  unfolding add_handlers
  add_handlers-head zero e m x below = refl
  add_handlers-head (suc left) e m x below =
      add_handlers-head left (e + 1) (add_interrupt_handler idt e handler m) x below
      ∙ add-head e m x below

  add_handlers-gates :
      (left e : ℕ) (m : Memory)
      → ((v : ℕ) → v < e → IsGate m (entry_at idt v) handler)
      → (v : ℕ) → v < e + left
      → IsGate (add_handlers left e idt handler m) (entry_at idt v) handler
  unfolding add_handlers
  add_handlers-gates zero e m before = λ v below. before v (omega arith)
  add_handlers-gates (suc left) e m before = λ v below.
      add_handlers-gates left (e + 1) (add_interrupt_handler idt e handler m)
        (λ w lt. elim (Bool-cases (e == w)) [
          | inl same ↦ rw (sym (eq e w same)) (add-same e m)
          | inr other ↦ add-other e w handler m (ground arith) (before w (ground arith))
        ])
        v (omega arith)
    where
      eq : (a b : ℕ) → (a == b) ≡ true → a ≡ b
      eq a b h = ground arith

  -- The table that `init_idt` fills has the handler at each of the 256 vectors.
  pub fill_table-IsTable :
      (m : Memory)
      → idt + 10 < 2 ^ 64
      → IsTable (fill_table idt handler (memset idt 0 table_size m)) idt (λ v. handler)
  unfolding fill_table
  fill_table-IsTable m low = record {
    limit =
        load16_ext written (fill_table idt handler cleared) idt
          (λ x from to. add_handlers-head 256 0 written x (omega arith))
        ∙ load16-store16_same with_base idt 4095;
    base =
        load64_ext written (fill_table idt handler cleared) (idt + 2)
          (λ x from to. add_handlers-head 256 0 written x (omega arith))
        ∙ load64_ext with_base written (idt + 2) (λ x from to.
          store16-other with_base idt 4095 x (λ e. ground arith) (λ e. ground arith))
        ∙ load64-store64_same cleared (idt + 2) (idt + 10) low;
    gates = λ v below. add_handlers-gates 256 0 written (λ w lt. absurd (omega arith)) v below;
  }
    where
      cleared : Memory
      cleared = memset idt 0 table_size m

      with_base : Memory
      with_base = store64 cleared (idt + 2) (idt + 10)

      written : Memory
      written = store16 with_base idt 4095

  -- Where the allocator grants the table, `init_idt` returns, and the table that the processor is
  -- given has the handler at each of the 256 vectors.
  pub init_idt-Returns :
      (m : Memory) (hw : Hardware) (log : Log)
      → idt + 10 < 2 ^ 64
      → Returns
          (λ l after. (l.idtr ≡ idt) × IsTable l.memory idt (λ v. handler))
          (init_idt (some idt) handler m hw log)
  unfolding init_idt
  init_idt-Returns m hw log low = returns (refl, fill_table-IsTable m low)
