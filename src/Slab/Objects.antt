-- ===== src/Slab/Objects.antt =====
-- `slab_alloc` and `slab_free` as operations on the set of objects in use.
use tiny_bios.Prelude.{
  ℕ, zero, suc, ◌+◌, ◌*◌, ◌/◌, ◌^◌, ◌≤◌, ◌<◌, ◌≡◌, ◌≢◌, inl, inr, refl, ap, ◌∙◌, arith, Bool, true,
  false, ◌==◌, if◌then◌else◌, ltb, Bool-cases, ltb→lt,
}
use native.Mathlib.Nat.{div-add-mod', mod-lt, mul-le-mul_right, suc-mul}
use tiny_bios.Memory.{load16, Memory, load32}
use tiny_bios.Memory.Words.{store8-lt, store8-other}
use tiny_bios.Slab.{
  SlabHeader, header_size, load_header, bitmap_get, bitmap_set, bitmap_clear, bitmap_idx,
  slab_overhead, slab_mem, slab_index, first_clear, slab_alloc, slab_free, Allocation,
}
use tiny_bios.Slab.Bitmap.{bitmap_get-bitmap_set, bitmap_get-bitmap_clear}
use tiny_bios.Slab.Layout.{slab_overhead_lem, slab_index-slab_mem}

-- Where the search for a clear bit stops, among `left` entries from `idx` on.
first_clear-le : (left idx b : ℕ) (m : Memory) → first_clear left idx b m ≤ idx + left
unfolding first_clear
first_clear-le zero idx b m = omega arith
first_clear-le (suc left) idx b m = ground (arith, first_clear-le left (idx + 1) b m)

first_clear-used :
    (left idx b : ℕ) (m : Memory) (j : ℕ)
    → idx ≤ j
    → j < first_clear left idx b m
    → bitmap_get m b j ≡ true
unfolding first_clear
first_clear-used zero idx b m j low high = absurd (omega arith)
first_clear-used (suc left) idx b m j low high =
    ground (arith, first_clear-used left (idx + 1) b m j, λ (e : idx ≡ j). ap (bitmap_get m b) e)

first_clear-clear :
    (left idx b : ℕ) (m : Memory)
    → first_clear left idx b m < idx + left
    → bitmap_get m b (first_clear left idx b m) ≡ false
unfolding first_clear
first_clear-clear zero idx b m h = absurd (omega arith)
first_clear-clear (suc left) idx b m h = ground (arith, first_clear-clear left (idx + 1) b m)

module _ (slab : ℕ) where
  load_header_ext :
      (m m' : Memory)
      → ((y : ℕ) → slab ≤ y → y < slab + header_size → m' y ≡ m y)
      → load_header m' slab ≡ load_header m slab
  unfolding load_header load16 load32
  load_header_ext m m' same =
      λ i. record { allocation_size = sizes i; num_entries = entries i; bitmap_bytes = bytes i }
    where
      sizes : load16 m' slab ≡ load16 m slab
      sizes = ground (arith, same slab, same (slab + 1))

      entries : load16 m' (slab + 2) ≡ load16 m (slab + 2)
      entries = ground (arith, same (slab + 2), same (slab + 2 + 1))

      bytes : load32 m' (slab + 4) ≡ load32 m (slab + 4)
      bytes =
          ground
            (arith, same (slab + 4), same (slab + 4 + 1), same (slab + 4 + 2), same (slab + 4 + 3))

-- A slab in memory: its header is `h`, its bitmap has a bit for each object, and its objects lie
-- below the end of the address space.
pub record IsSlab (slab : ℕ) (h : SlabHeader) (m : Memory) : Type 0 where
  pub bytes : (y : ℕ) → m y < 256
  pub header : load_header m slab ≡ h
  pub sized : 0 < h.allocation_size
  pub few : h.num_entries < 2 ^ 16
  pub mapped : h.num_entries ≤ h.bitmap_bytes * 8
  pub room : h.num_entries * h.allocation_size + slab_overhead h + slab ≤ 2 ^ 32

unfoldable pub in_use : (slab : ℕ) → Memory → ℕ → Bool
in_use slab m i = bitmap_get m (slab + header_size) i

-- What `slab_alloc` may answer: null, where every object is in use, or the first object that is
-- not. Only the byte of its bit is written.
pub data Allocated (slab : ℕ) (h : SlabHeader) (m : Memory) (a : Allocation) : Type 0 where
  all_used :
      ((j : ℕ) → j < h.num_entries → in_use slab m j ≡ true)
      → a.address ≡ 0
      → a.memory ≡ m
      → Allocated slab h m a
  first_unused :
      (i : ℕ)
      → i < h.num_entries
      → in_use slab m i ≡ false
      → ((j : ℕ) → j < i → in_use slab m j ≡ true)
      → a.address ≡ slab_mem h slab i
      → ((j : ℕ) → in_use slab a.memory j ≡ (if i == j then true else in_use slab m j))
      → ((y : ℕ) → y ≢ slab + header_size + i / 8 → a.memory y ≡ m y)
      → IsSlab slab h a.memory
      → Allocated slab h m a

module _ (slab : ℕ) (h : SlabHeader) (m : Memory) (s : IsSlab slab h m) where
  set-other :
      (i y : ℕ) → y ≢ slab + header_size + i / 8 → bitmap_set (slab + header_size) i m y ≡ m y
  unfolding bitmap_set bitmap_idx
  set-other i y h = store8-other m (slab + header_size + i / 8) _ y h

  set-IsSlab : (i : ℕ) → IsSlab slab h (bitmap_set (slab + header_size) i m)
  unfolding bitmap_set
  set-IsSlab i = record {
    bytes = store8-lt m _ _ s.bytes;
    header =
        load_header_ext slab m (bitmap_set (slab + header_size) i m)
          (λ y low high. set-other i y (omega arith))
        ∙ s.header;
    sized = s.sized;
    few = s.few;
    mapped = s.mapped;
    room = s.room;
  }

  clear-other :
      (i y : ℕ) → y ≢ slab + header_size + i / 8 → bitmap_clear (slab + header_size) i m y ≡ m y
  unfolding bitmap_clear bitmap_idx
  clear-other i y h = store8-other m (slab + header_size + i / 8) _ y h

  clear-IsSlab : (i : ℕ) → IsSlab slab h (bitmap_clear (slab + header_size) i m)
  unfolding bitmap_clear
  clear-IsSlab i = record {
    bytes = store8-lt m _ _ s.bytes;
    header =
        load_header_ext slab m (bitmap_clear (slab + header_size) i m)
          (λ y low high. clear-other i y (omega arith))
        ∙ s.header;
    sized = s.sized;
    few = s.few;
    mapped = s.mapped;
    room = s.room;
  }

  end_plain : slab + header_size < 2 ^ 32
  end_plain = omega (
    arith,
    slab_overhead_lem h s.sized,
    s.room,
    div-add-mod' (8 + h.bitmap_bytes) h.allocation_size,
    mod-lt (8 + h.bitmap_bytes) s.sized,
  )

  abbrev found : ℕ
  found = first_clear h.num_entries 0 (slab + header_size) m

  slab_alloc_full : h.num_entries ≤ found → slab_alloc slab m ≡ record { address = 0; memory = m }
  unfolding slab_alloc
  slab_alloc_full le = rw s.header (ground (arith, end_plain))

  slab_alloc_first :
      found < h.num_entries
      → slab_alloc slab m ≡ record {
        address = slab_mem h slab found;
        memory = bitmap_set (slab + header_size) found m;
      }
  unfolding slab_alloc
  slab_alloc_first lt = rw s.header (ground (arith, end_plain))

  -- On a slab, `slab_alloc` gives the first object that is not in use, or null where there is none.
  pub slab_alloc-Allocated : Allocated slab h m (slab_alloc slab m)
  unfolding in_use
  slab_alloc-Allocated = elim (Bool-cases (ltb found h.num_entries)) [
    | inl some_left ↦
        (let lt = ltb→lt found h.num_entries some_left in
          rw (slab_alloc_first lt) (
            first_unused found lt
              (first_clear-clear h.num_entries 0 (slab + header_size) m (omega arith))
              (λ j below.
                first_clear-used h.num_entries 0 (slab + header_size) m j (omega arith) below)
              refl (λ j. bitmap_get-bitmap_set m (slab + header_size) found j s.bytes)
              (set-other found) (set-IsSlab found)))
    | inr none_left ↦ rw (slab_alloc_full (ground arith)) (
        all_used
          (λ j below.
            first_clear-used h.num_entries 0 (slab + header_size) m j (omega arith) (ground arith))
          refl refl)
  ]

  -- Freeing the address of an object takes that object, and no other, out of use.
  module _ (i : ℕ) (below : i < h.num_entries) where
    at_index : slab_index h slab (slab_mem h slab i) ≡ i
    at_index = slab_index-slab_mem h slab i s.sized (omega (arith, s.few)) (
        omega (
          arith,
          s.room,
          s.sized,
          mul-le-mul_right h.allocation_size below,
          suc-mul i h.allocation_size,
        ))

    slab_free_lem : slab_free slab (slab_mem h slab i) m ≡ bitmap_clear (slab + header_size) i m
    unfolding slab_free
    slab_free_lem =
        rw s.header (rw at_index (ap (λ (b : ℕ). bitmap_clear b i m) (omega (arith, end_plain))))

    pub slab_free-IsSlab : IsSlab slab h (slab_free slab (slab_mem h slab i) m)
    slab_free-IsSlab = rw slab_free_lem (clear-IsSlab i)

    pub in_use-slab_free :
        (j : ℕ)
        → in_use slab (slab_free slab (slab_mem h slab i) m) j
          ≡ (if i == j then false else in_use slab m j)
    unfolding in_use
    in_use-slab_free j =
        rw slab_free_lem (bitmap_get-bitmap_clear m (slab + header_size) i j s.bytes)

    pub slab_free-other :
        (y : ℕ) → y ≢ slab + header_size + i / 8 → slab_free slab (slab_mem h slab i) m y ≡ m y
    slab_free-other y apart = rw slab_free_lem (clear-other i y apart)
