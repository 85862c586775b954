-- ===== src/Idt/Fields.antt =====
-- What stores leave in the words of an entry.
use tiny_bios.Prelude.{ℕ, ◌+◌, ◌-◌, ◌*◌, ◌/◌, ◌%◌, ◌^◌, ◌≤◌, ◌<◌, ◌≡◌, ap, ◌∙◌, arith, u16, u32}
use tiny_bios.Memory.{Memory, load16, load32, store16, store32}
use tiny_bios.Memory.Words.{
  Apart, store16-other, store32-other, load16-store16_same, load32-store32_same,
}
use tiny_bios.Idt.{set_field, set_segment, set_offsets, set_flags, segment, flags}

pub load16_ext :
    (m m' : Memory) (b : ℕ) → ((x : ℕ) → b ≤ x → x < b + 2 → m' x ≡ m x) → load16 m' b ≡ load16 m b
unfolding load16
load16_ext m m' b same = ground (arith, same b, same (b + 1))

pub load32_ext :
    (m m' : Memory) (b : ℕ) → ((x : ℕ) → b ≤ x → x < b + 4 → m' x ≡ m x) → load32 m' b ≡ load32 m b
unfolding load32
load32_ext m m' b same = ground (arith, same b, same (b + 1), same (b + 2), same (b + 3))

pub set_field-other :
    (at low width v : ℕ) (m : Memory) (x : ℕ) → Apart at 2 x 1 → set_field at low width v m x ≡ m x
unfolding set_field
set_field-other at low width v m x apart =
    store16-other m at _ x (λ e. ground arith) (λ e. ground arith)

pub set_field-same :
    (at low width v word : ℕ) (m : Memory)
    → load16 m at ≡ word
    → load16 (set_field at low width v m) at
      ≡ u16 (word - word / 2 ^ low % 2 ^ width * 2 ^ low + v % 2 ^ width * 2 ^ low)
unfolding set_field
set_field-same at low width v word m e =
    load16-store16_same m at _
    ∙ ap (λ (w : ℕ). u16 (w - w / 2 ^ low % 2 ^ width * 2 ^ low + v % 2 ^ width * 2 ^ low)) e

module _ (at : ℕ) (m : Memory) where
  pub set_segment-other :
      (index use_ldt privilege x : ℕ)
      → Apart (segment at) 2 x 1
      → set_segment at index use_ldt privilege m x ≡ m x
  unfolding set_segment
  set_segment-other index use_ldt privilege x apart =
      set_field-other (segment at) 0 13 index _ x apart
      ∙ set_field-other (segment at) 13 1 use_ldt _ x apart
      ∙ set_field-other (segment at) 14 2 privilege m x apart

  pub set_segment-word :
      load16 m (segment at) ≡ 0 → load16 (set_segment at 0x10 0 0 m) (segment at) ≡ 0x10
  unfolding set_segment
  set_segment-word clear =
      set_field-same (segment at) 0 13 0x10 0 _
        (set_field-same (segment at) 13 1 0 0 _ (set_field-same (segment at) 14 2 0 0 m clear))

  pub set_flags-other :
      (present type x : ℕ) → Apart (flags at) 2 x 1 → set_flags at present type m x ≡ m x
  unfolding set_flags
  set_flags-other present type x apart =
      set_field-other (flags at) 8 4 type _ x apart
      ∙ set_field-other (flags at) 15 1 present m x apart

  pub set_flags-word : load16 m (flags at) ≡ 0 → load16 (set_flags at 1 0x0e m) (flags at) ≡ 0x8e00
  unfolding set_flags
  set_flags-word clear =
      set_field-same (flags at) 8 4 0x0e 0x8000 _ (set_field-same (flags at) 15 1 1 0 m clear)

  pub set_offsets-other :
      (handler x : ℕ) → Apart at 2 x 1 → Apart (at + 6) 6 x 1 → set_offsets at handler m x ≡ m x
  unfolding set_offsets
  set_offsets-other handler x low high =
      store32-other _ (at + 8) _ x (ground arith)
      ∙ store16-other _ (at + 6) _ x (λ e. ground arith) (λ e. ground arith)
      ∙ store16-other m at _ x (λ e. ground arith) (λ e. ground arith)

  -- The three parts of the address, as they lie in memory.
  module _ (handler : ℕ) where
    abbrev with_low : Memory
    with_low = store16 m at (u16 handler)

    abbrev with_mid : Memory
    with_mid = store16 with_low (at + 6) (u16 (handler / 2 ^ 16))

    abbrev high : ℕ
    high = u32 (handler / 2 ^ 32)

    pub set_offsets-low : load16 (set_offsets at handler m) at ≡ handler % 2 ^ 16
    unfolding set_offsets
    set_offsets-low =
        load16_ext with_low (store32 with_mid (at + 8) high) at (λ x from to.
          store32-other with_mid (at + 8) high x (ground arith)
          ∙ store16-other with_low (at + 6) _ x (λ e. ground arith) (λ e. ground arith))
        ∙ load16-store16_same m at (u16 handler)
        ∙ omega arith

    pub set_offsets-mid : load16 (set_offsets at handler m) (at + 6) ≡ handler / 2 ^ 16 % 2 ^ 16
    unfolding set_offsets
    set_offsets-mid =
        load16_ext with_mid (store32 with_mid (at + 8) high) (at + 6)
          (λ x from to. store32-other with_mid (at + 8) high x (ground arith))
        ∙ load16-store16_same with_low (at + 6) _
        ∙ omega arith

    pub set_offsets-high : load32 (set_offsets at handler m) (at + 8) ≡ handler / 2 ^ 32 % 2 ^ 32
    unfolding set_offsets
    set_offsets-high = load32-store32_same with_mid (at + 8) high ∙ omega arith
