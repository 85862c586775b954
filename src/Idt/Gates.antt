-- ===== src/Idt/Gates.antt =====
-- The gates that the processor finds in the table.
use tiny_bios.Prelude.{ℕ, ◌+◌, ◌*◌, ◌^◌, ◌≤◌, ◌<◌, ◌≡◌, ◌∙◌, arith}
use tiny_bios.Memory.{Memory, load16, load32, memset}
use tiny_bios.Memory.Words.{Apart}
use tiny_bios.Memory.Loops.{memset_lem}
use tiny_bios.Idt.{entry_size, set_segment, set_offsets, set_flags}
use tiny_bios.Idt.Fields.{
  load16_ext, load32_ext, set_segment-other, set_segment-word, set_flags-other, set_flags-word,
  set_offsets-other, set_offsets-low, set_offsets-mid, set_offsets-high,
}

-- The 16 bytes at an address are a present interrupt gate of the most privileged level, with no
-- stack of its own, to the segment 0x10 and this address.
pub record IsGate (m : Memory) (at handler : ℕ) : Type 0 where
  pub offset : load16 m at + load16 m (at + 6) * 2 ^ 16 + load32 m (at + 8) * 2 ^ 32 ≡ handler
  pub selector : load16 m (at + 2) ≡ 0x10
  pub attributes : load16 m (at + 4) ≡ 0x8e00
  pub rest_clear : load32 m (at + 12) ≡ 0

pub IsGate-ext :
    (m m' : Memory) (at handler : ℕ)
    → ((x : ℕ) → at ≤ x → x < at + 16 → m' x ≡ m x)
    → IsGate m at handler
    → IsGate m' at handler
IsGate-ext m m' at handler same g = record {
  offset = omega (
    arith,
    g.offset,
    load16_ext m m' at (λ x from to. same x (omega arith) (omega arith)),
    load16_ext m m' (at + 6) (λ x from to. same x (omega arith) (omega arith)),
    load32_ext m m' (at + 8) (λ x from to. same x (omega arith) (omega arith)),
  );
  selector =
      load16_ext m m' (at + 2) (λ x from to. same x (omega arith) (omega arith)) ∙ g.selector;
  attributes =
      load16_ext m m' (at + 4) (λ x from to. same x (omega arith) (omega arith)) ∙ g.attributes;
  rest_clear =
      load32_ext m m' (at + 12) (λ x from to. same x (omega arith) (omega arith)) ∙ g.rest_clear;
}

module _ (at handler : ℕ) (m : Memory) where
  abbrev m1 : Memory
  m1 = memset at 0 entry_size m

  abbrev m2 : Memory
  m2 = set_segment at 0x10 0 0 m1

  abbrev m3 : Memory
  m3 = set_offsets at handler m2

  abbrev m4 : Memory
  m4 = set_flags at 1 0x0e m3

  m1-zero : (x : ℕ) → at ≤ x → x < at + 16 → m1 x ≡ 0
  m1-zero x from to = ground (arith, memset_lem at 0 entry_size m x)

  m1-clear16 : (b : ℕ) → at ≤ b → b + 2 ≤ at + 16 → load16 m1 b ≡ 0
  unfolding load16
  m1-clear16 b from to = ground (arith, m1-zero b, m1-zero (b + 1))

  m1-clear32 : (b : ℕ) → at ≤ b → b + 4 ≤ at + 16 → load32 m1 b ≡ 0
  unfolding load32
  m1-clear32 b from to =
      ground (arith, m1-zero b, m1-zero (b + 1), m1-zero (b + 2), m1-zero (b + 3))

  m4-m3 : (x : ℕ) → Apart (at + 4) 2 x 1 → m4 x ≡ m3 x
  m4-m3 x apart = set_flags-other at m3 1 0x0e x apart

  m3-m1 : (x : ℕ) → Apart at 4 x 1 → Apart (at + 6) 6 x 1 → m3 x ≡ m1 x
  m3-m1 x low high =
      set_offsets-other at m2 handler x (ground arith) high
      ∙ set_segment-other at m1 0x10 0 0 x (ground arith)

  pub IsGate-made : handler < 2 ^ 64 → IsGate m4 at handler
  IsGate-made small = record {
    offset = omega (
      arith,
      load16_ext m3 m4 at (λ x from to. m4-m3 x (ground arith)),
      load16_ext m3 m4 (at + 6) (λ x from to. m4-m3 x (ground arith)),
      load32_ext m3 m4 (at + 8) (λ x from to. m4-m3 x (ground arith)),
      set_offsets-low at m2 handler,
      set_offsets-mid at m2 handler,
      set_offsets-high at m2 handler,
    );
    selector =
        load16_ext m2 m4 (at + 2) (λ x from to.
          m4-m3 x (ground arith) ∙ set_offsets-other at m2 handler x (ground arith) (ground arith))
        ∙ set_segment-word at m1 (m1-clear16 (at + 2) (omega arith) (omega arith));
    attributes = set_flags-word at m3 (
        load16_ext m1 m3 (at + 4) (λ x from to. m3-m1 x (ground arith) (ground arith))
        ∙ m1-clear16 (at + 4) (omega arith) (omega arith));
    rest_clear =
        load32_ext m1 m4 (at + 12)
          (λ x from to. m4-m3 x (ground arith) ∙ m3-m1 x (ground arith) (ground arith))
        ∙ m1-clear32 (at + 12) (omega arith) (omega arith);
  }

  pub gate_other : (x : ℕ) → Apart at 16 x 1 → m4 x ≡ m x
  gate_other x apart =
      m4-m3 x (ground arith)
      ∙ m3-m1 x (ground arith) (ground arith)
      ∙ ground (arith, memset_lem at 0 entry_size m x)
