-- ===== src/Malloc.antt =====
-- src/mm/malloc.c with the structures of src/include/stdlib.h: the allocator, over the bytes of
-- memory. A header holds `previous`, `next` and `size`, eight bytes each, and one byte `free`; its
-- size is padded to 32. `heap` points at 0x8000, where src/c_entry.c puts it.
pub mod Allocate
pub mod Blocks
pub mod Header
pub mod Insert
pub mod Refine
pub mod Walk
pub mod Init
pub mod Exhausted
pub mod Fuse
pub mod Free
pub mod Broken
mod Tests
use tiny_bios.Prelude.{
  ℕ, zero, suc, ◌+◌, ◌-◌, ◌*◌, ◌%◌, ◌^◌, Bool, true, false, not, ◌||◌, Option, none, some, ◌==◌,
  ◌!=◌, ltb, leb, u8, u64, sub64, if◌then◌else◌,
}
use tiny_bios.Memory.{Memory, store8, load64, store64, memset, memcpy}

abbrev pub header_size : ℕ
header_size = 32

-- `heap_start` has two fields of eight bytes, `size` and `start`.
abbrev pub heap : ℕ
heap = 0x8000

abbrev pub heap_start_size : ℕ
heap_start_size = 16

pub heap_size : Memory → ℕ
heap_size m = load64 m heap

pub heap_first : Memory → ℕ
heap_first m = load64 m (heap + 8)

unfoldable pub previous : Memory → ℕ → ℕ
previous m hdr = load64 m hdr

unfoldable pub next : Memory → ℕ → ℕ
next m hdr = load64 m (hdr + 8)

unfoldable pub size : Memory → ℕ → ℕ
size m hdr = load64 m (hdr + 16)

unfoldable pub is_free : Memory → ℕ → Bool
is_free m hdr = m (hdr + 24) != 0

pub set_previous : ℕ → ℕ → Memory → Memory
set_previous hdr v m = store64 m hdr v

pub set_next : ℕ → ℕ → Memory → Memory
set_next hdr v m = store64 m (hdr + 8) v

pub set_size : ℕ → ℕ → Memory → Memory
set_size hdr v m = store64 m (hdr + 16) v

pub set_free : ℕ → Bool → Memory → Memory
set_free hdr b m = store8 m (hdr + 24) (if b then 1 else 0)

-- What a call leaves: its result and the memory, a panic, or a loop that did not end on its fuel.
pub data Outcome (A : Type 0) : Type 0 where
  done : A → Memory → Outcome A
  panicked : Memory → Outcome A
  out_of_fuel : Outcome A

abbrev pub and_then : {A B : Type 0} → Outcome A → (A → Memory → Outcome B) → Outcome B
and_then (done a m) k = k a m
and_then (panicked m) k = panicked m
and_then out_of_fuel k = out_of_fuel

-- `(memory_header *)start + sizeof(heap_start)` counts in headers.
pub heap_init : (start size : ℕ) → Memory → Memory
heap_init start total m =
    let first = u64 (start + heap_start_size * header_size) in
    let m1 = store64 m (heap + 8) first in
    let m2 = store64 m1 heap total in
    let m3 = set_free (heap_first m2) true m2 in
    let m4 = set_size (heap_first m3) (sub64 total header_size) m3 in
    let m5 = set_previous (heap_first m4) 0 m4 in set_next (heap_first m5) 0 m5

pub hdr_addr_is_valid : Memory → ℕ → Bool
hdr_addr_is_valid m check = ltb check (sub64 (u64 (heap_first m + heap_size m)) header_size)

pub next_hdr_is_valid : Memory → ℕ → Bool
next_hdr_is_valid m hdr = hdr_addr_is_valid m (next m hdr)

pub previous_hdr_is_valid : Memory → ℕ → Bool
previous_hdr_is_valid m hdr = hdr_addr_is_valid m (previous m hdr)

pub header_for_ptr : ℕ → ℕ
header_for_ptr p = sub64 p header_size

pub ptr_for_header : ℕ → ℕ
ptr_for_header hdr = u64 (hdr + header_size)

unfoldable pub aligned_size : ℕ → ℕ
aligned_size wanted = u64 (u64 (wanted + header_size) + (header_size - wanted % header_size))

pub fuse_blocks : (a b : ℕ) → Memory → Memory
fuse_blocks a b m =
    let first = if ltb b a then a else b in
    let second = if ltb b a then b else a in
    let m1 = set_size first (u64 (size m first + size m second)) m in
    let m2 = set_next first (next m1 second) m1 in
    let m3 =
      if next_hdr_is_valid m2 (next m2 first) then set_previous (next m2 first) first m2 else m2 in
    memset second 0 header_size m3

fuse_forward : (fuel hdr : ℕ) → Memory → Outcome (Unit {0})
fuse_forward zero hdr m = out_of_fuel
fuse_forward (suc fuel) hdr m =
    let rest = fuse_forward fuel hdr (fuse_blocks hdr (next m hdr) m) in
    if not (next_hdr_is_valid m hdr) || not (is_free m (next m hdr)) then done tt m else rest

fuse_backward : (fuel hdr : ℕ) → Memory → Outcome (Unit {0})
fuse_backward zero hdr m = out_of_fuel
fuse_backward (suc fuel) hdr m =
    let rest = fuse_backward fuel hdr (fuse_blocks hdr (previous m hdr) m) in
    if not (previous_hdr_is_valid m hdr) || not (is_free m (previous m hdr))
    then done tt m
    else rest

pub fuse_walkthrough : (fuel hdr : ℕ) → Memory → Outcome (Unit {0})
fuse_walkthrough fuel hdr m = and_then (fuse_forward fuel hdr m) (λ _ m'. fuse_backward fuel hdr m')

-- `some 0` is the null pointer; `none` says that the fuel ran out.
pub find_block : (fuel wanted hdr : ℕ) → Memory → Option ℕ
find_block zero wanted hdr m = none
find_block (suc fuel) wanted hdr m =
    let rest = find_block fuel wanted (next m hdr) m in
    if not (is_free m hdr) || ltb (size m hdr) wanted
    then (if not (next_hdr_is_valid m hdr) then some 0 else rest)
    else some hdr

pub get_free_block : (fuel wanted : ℕ) → Memory → Option ℕ
get_free_block fuel wanted m = find_block fuel wanted (heap_first m) m

pub space_for_new_blk : Memory → (hdr wanted : ℕ) → Bool
space_for_new_blk m hdr wanted =
    ltb (2 * header_size) (sub64 (sub64 (size m hdr) wanted) header_size)

-- The new block takes in a free block behind it.
pub absorb_next : ℕ → Memory → Memory
absorb_next new m =
    if is_free m (next m new)
    then (let m1 = set_size new (u64 (size m new + size m (next m new))) m in
        let m2 = set_next new (next m1 (next m1 new)) m1 in memset (next m2 new) 0 header_size m2)
    else m

pub insert_new_block : (hdr wanted : ℕ) → Memory → Memory
insert_new_block hdr wanted m =
    let new = u64 (hdr + wanted) in
    let m1 = set_free new true m in
    let m2 = set_size new (sub64 (size m1 hdr) wanted) m1 in
    let m3 = set_previous new hdr m2 in
    let m4 = set_next new (next m3 hdr) m3 in
    let m5 = absorb_next new m4 in
    let m6 = set_previous (next m5 new) new m5 in set_next hdr new (set_size hdr wanted m6)

pub allocate_block : (hdr wanted : ℕ) → Memory → Memory
allocate_block hdr wanted m =
    let m1 = set_free hdr false m in
    if next_hdr_is_valid m1 hdr
    then (if space_for_new_blk m1 hdr wanted then insert_new_block hdr wanted m1 else m1)
    else (if next m1 hdr == 0 then insert_new_block hdr wanted m1 else m1)

pub delete_block : (fuel hdr : ℕ) → Memory → Outcome (Unit {0})
delete_block fuel hdr m = fuse_walkthrough fuel hdr (set_free hdr true m)

-- The copy goes between the payloads; nothing marks the new block as taken.
pub relocate : (fuel hdr wanted ret : ℕ) → Memory → Outcome ℕ
relocate fuel hdr wanted ret m =
    if ret == 0
    then done 0 m
    else (let m1 = memcpy (ptr_for_header hdr) (ptr_for_header ret) (sub64 wanted header_size) m in
        and_then (delete_block fuel hdr m1) (λ _ m2. done ret m2))

pub resize_block : (fuel hdr wanted : ℕ) → Memory → Outcome ℕ
resize_block fuel hdr wanted m =
    if leb wanted (size m hdr)
    then done hdr (if space_for_new_blk m hdr wanted then insert_new_block hdr wanted m else m)
    else (elim (get_free_block fuel wanted m) [
      | none ↦ out_of_fuel
      | some ret ↦ relocate fuel hdr wanted ret m
    ])

pub malloc : (fuel wanted : ℕ) → Memory → Outcome ℕ
malloc fuel wanted m = elim (get_free_block fuel (aligned_size wanted) m) [
  | none ↦ out_of_fuel
  | some hdr ↦
      if hdr == 0
      then done 0 m
      else done (ptr_for_header hdr) (allocate_block hdr (aligned_size wanted) m)
]

unfoldable pub calloc : (fuel nmemb each : ℕ) → Memory → Outcome ℕ
calloc fuel nmemb each m =
    and_then (malloc fuel (u64 (nmemb * each)) m)
      (λ p m'. done p (if p != 0 then memset p 0 (u64 (nmemb * each)) m' else m'))

pub realloc : (fuel ptr wanted : ℕ) → Memory → Outcome ℕ
realloc fuel ptr wanted m =
    let hdr = header_for_ptr ptr in
    and_then (resize_block fuel hdr (u64 (wanted + header_size)) m) (λ got m1.
      if got == 0
      then done 0 m1
      else if hdr == got
      then done ptr m1
      else (let dst = ptr_for_header got in
          and_then (delete_block fuel hdr (memcpy ptr dst wanted m1)) (λ _ m2. done dst m2)))

pub free : (fuel ptr : ℕ) → Memory → Outcome (Unit {0})
free fuel ptr m =
    let hdr = header_for_ptr ptr in if is_free m hdr then panicked m else delete_block fuel hdr m
