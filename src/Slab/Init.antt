-- ===== src/Slab/Init.antt =====
-- What `init_slab` makes of its region.
use tiny_bios.Prelude.{
  ℕ, suc, ◌+◌, ◌-◌, ◌*◌, ◌/◌, ◌^◌, ◌≤◌, ◌<◌, ◌≡◌, refl, ap, ◌∙◌, arith, false, u16, u32, sub32,
}
use native.Mathlib.Nat.{div-add-mod', mod-lt, div-mul-le_self, div-le_self, suc-mul}
use tiny_bios.Prelude.Bits.{zero_and}
use tiny_bios.Memory.{Memory}
use tiny_bios.Slab.{
  SlabHeader, bitmap_size, header_size, bitmap_idx, bitmap_bit, bitmap_get, load_header, init_slab,
  slab_overhead, slab_mem,
}
use tiny_bios.Slab.Layout.{
  entries_for, slab_overhead_lem, init_slab-allocation_size, init_slab-num_entries,
  init_slab-bitmap_bytes, init_slab-zero, init_slab-lt, room_lem, bitmap_small, entries_for-plain,
  bitmap_entries-le,
}
use tiny_bios.Slab.Objects.{IsSlab, in_use}

-- A slab that was just made, in a region with room for one object.
module _ (s e a : ℕ) (m : Memory) (pos : 0 < a) (small : a < 2 ^ 16) (region : s ≤ e)
    (end : e < 2 ^ 32) (fits : bitmap_size ((e - s) / a) + header_size < (e - s) / a * a) where
  abbrev h : SlabHeader
  h = load_header (init_slab s e a m) s

  s_low : s + header_size < 2 ^ 32
  s_low = omega (arith, div-mul-le_self (e - s) a)

  size_eq : h.allocation_size ≡ a
  size_eq = init_slab-allocation_size s e a m small s_low

  total_eq : sub32 e s ≡ e - s
  total_eq = omega arith

  num_eq : h.num_entries ≡ u16 (entries_for (e - s) a)
  num_eq =
      init_slab-num_entries s e a m small s_low ∙ ap (λ (t : ℕ). u16 (entries_for t a)) total_eq

  bytes_eq : h.bitmap_bytes ≡ u32 (bitmap_size (entries_for (e - s) a))
  bytes_eq =
      init_slab-bitmap_bytes s e a m small s_low
      ∙ ap (λ (t : ℕ). u32 (bitmap_size (entries_for t a))) total_eq

  bytes_plain : h.bitmap_bytes ≡ bitmap_size (entries_for (e - s) a)
  bytes_plain = omega (
    arith,
    bytes_eq,
    bitmap_entries-le (e - s) a pos small (omega arith) fits,
    bitmap_small (e - s) a pos small (omega arith) fits,
  )

  room : (i : ℕ) → i ≤ h.num_entries → i * a + ((8 + h.bitmap_bytes) / a * a + a) ≤ (e - s) / a * a
  room i below =
      room_lem ((e - s) / a) (entries_for (e - s) a) (8 + h.bitmap_bytes)
        (bitmap_size ((e - s) / a) + header_size) a i pos
        (omega (arith, bytes_plain, bitmap_entries-le (e - s) a pos small (omega arith) fits)) fits
        (entries_for-plain (e - s) a pos small (omega arith) fits) (omega (arith, num_eq))

  overhead_eq : slab_overhead h ≡ (8 + h.bitmap_bytes) / a * a + a
  overhead_eq =
      slab_overhead_lem h (omega (arith, size_eq))
      ∙ ap (λ (t : ℕ). (8 + h.bitmap_bytes) / t * t + t) size_eq

  behind : 8 + h.bitmap_bytes ≤ (8 + h.bitmap_bytes) / a * a + a
  behind = omega (arith, div-add-mod' (8 + h.bitmap_bytes) a, mod-lt (8 + h.bitmap_bytes) pos)

  room_in_region : (i : ℕ) → i ≤ h.num_entries → i * a + slab_overhead h + s ≤ e
  room_in_region i below = omega (arith, room i below, overhead_eq, div-mul-le_self (e - s) a)

  mapped_entries : h.num_entries ≤ h.bitmap_bytes * 8
  unfolding bitmap_size
  mapped_entries = omega (
    arith,
    bytes_plain,
    num_eq,
    entries_for-plain (e - s) a pos small (omega arith) fits,
    div-le_self (e - s) a,
  )

  module _ (i : ℕ) (below : i < h.num_entries) where
    address_eq : slab_mem h s i ≡ i * a + slab_overhead h + s
    unfolding slab_mem
    address_eq =
        ap (λ (t : ℕ). u32 (i * t + slab_overhead h + s)) size_eq
        ∙ omega (arith, room_in_region (suc i) below, suc-mul i a)

    -- Each object of a slab that was just made lies behind the bitmap and inside the region, and its bit lies in
    -- the bitmap.
    pub slab_mem-inside :
        (s + header_size + h.bitmap_bytes ≤ slab_mem h s i)
        × (slab_mem h s i + a ≤ e)
        × (i / 8 < h.bitmap_bytes)
    slab_mem-inside = (
      omega (arith, address_eq, overhead_eq, behind),
      omega (arith, address_eq, room_in_region (suc i) below, suc-mul i a),
      omega (arith, mapped_entries),
    )

  module _ (all_bytes : (y : ℕ) → m y < 256) where
    -- `init_slab` makes a slab with no object in use.
    pub init_slab-IsSlab :
        IsSlab s h (init_slab s e a m)
        × ((i : ℕ) → i < h.num_entries → in_use s (init_slab s e a m) i ≡ false)
    unfolding in_use bitmap_get bitmap_idx
    init_slab-IsSlab = (
      record {
        bytes = init_slab-lt s e a m small s_low all_bytes;
        header = refl;
        sized = omega (arith, size_eq);
        few = omega (arith, num_eq);
        mapped = mapped_entries;
        room =
            (omega (
              arith,
              ap (λ (t : ℕ). h.num_entries * t) size_eq,
              room_in_region h.num_entries (omega arith),
            ));
      },
      λ i below.
          rw
            (init_slab-zero s e a m small s_low (s + header_size + i / 8) (omega arith)
              (omega (arith, mapped_entries, init_slab-bitmap_bytes s e a m small s_low)))
            (ground (arith, zero_and (bitmap_bit i))),
    )
