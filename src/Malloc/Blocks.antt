-- ===== src/Malloc/Blocks.antt =====
-- The heap as a list of blocks, and its layout in memory.
use tiny_bios.Prelude.{
  ℕ, ◌+◌, ◌-◌, ◌%◌, ◌^◌, ◌≤◌, ◌<◌, ◌≡◌, ◌⊎◌, Bool, true, false, ◌&&◌, ap, ◌∙◌, arith, List, [], ◌∷◌,
  leb, ltb, if◌then◌else◌,
}
use tiny_bios.Memory.{Memory}
use tiny_bios.Malloc.{heap, heap_start_size, heap_first, heap_size, is_free, header_size}
use tiny_bios.Malloc.Header.{Fields, fields, fields_ext}

-- The size of a block counts its header.
pub record Block : Type 0 where
  pub size : ℕ
  pub is_free : Bool

abbrev pub block : ℕ → Bool → Block
block size is_free = record { size = size; is_free = is_free }

-- The list ends with a null pointer.
abbrev pub next_addr : ℕ → List Block → ℕ
next_addr a [] = 0
next_addr a (b ∷ bs) = a

-- From `a` to `limit` lie these blocks without a gap, each linked to its neighbours.
abbrev pub Layout : Memory → (prev a : ℕ) → List Block → (limit : ℕ) → Type 0
Layout m prev a [] limit = a ≡ limit
Layout m prev a (b ∷ bs) limit =
    (fields m a ≡ record {
      previous = prev;
      next = next_addr (a + b.size) bs;
      size = b.size;
      is_free = b.is_free;
    })
    × (32 ≤ b.size)
    × (b.size % 32 ≡ 0)
    × Layout m a (a + b.size) bs limit

abbrev pub front_free : List Block → Bool
front_free [] = false
front_free (b ∷ bs) = b.is_free

-- No free block stands beside another.
abbrev pub NoTwoFree : List Block → Type 0
NoTwoFree [] = Unit
NoTwoFree (b ∷ bs) = ((b.is_free && front_free bs) ≡ false) × NoTwoFree bs

-- The address belongs to the payload of a block in use.
abbrev pub InUse : (a : ℕ) → List Block → ℕ → Type 0
InUse a [] x = ⊥
InUse a (b ∷ bs) x =
    ((b.is_free ≡ false) × (a + 32 ≤ x) × (x < a + b.size)) ⊎ InUse (a + b.size) bs x

pub record IsHeap (m : Memory) (bs : List Block) : Type 0 where
  pub bottom : heap + heap_start_size ≤ heap_first m
  pub room : header_size ≤ heap_size m
  pub top : heap_first m + heap_size m < 2 ^ 64
  pub layout : Layout m 0 (heap_first m) bs (heap_first m + heap_size m - header_size)
  pub apart : NoTwoFree bs
  -- The null pointer is followed as a header, so what lies at address 0 must look taken.
  pub null_taken : is_free m 0 ≡ false

abbrev pub fits : ℕ → Block → Bool
fits wanted b = b.is_free && leb wanted b.size

-- What becomes of the block that is chosen, and the blocks behind it.
abbrev pub take_block : ℕ → Block → List Block → List Block
take_block wanted b bs =
    if ltb (wanted + 96) b.size
    then block wanted false ∷ block (b.size - wanted) true ∷ bs
    else block b.size false ∷ bs

-- First fit: the first free block that is large enough is taken, at that offset, and leaves those
-- blocks. The fit is not exact, but leaves room for a header at least.
pub data FirstFit (wanted : ℕ) : List Block → ℕ → List Block → Type 0 where
  here :
      (b : Block) (bs : List Block) (bs' : List Block)
      → b.is_free ≡ true
      → wanted + 32 ≤ b.size
      → bs' ≡ take_block wanted b bs
      → FirstFit wanted (b ∷ bs) 0 bs'
  there :
      (b : Block) {bs bs' : List Block} {off : ℕ} (off' : ℕ)
      → fits wanted b ≡ false
      → off' ≡ b.size + off
      → FirstFit wanted bs off bs'
      → FirstFit wanted (b ∷ bs) off' (b ∷ bs')

pub Layout-le :
    (m : Memory) (prev a : ℕ) (bs : List Block) (limit : ℕ) → Layout m prev a bs limit → a ≤ limit
Layout-le m prev a [] limit l = omega arith
Layout-le m prev a (b ∷ bs) limit l = omega (arith, Layout-le m a (a + b.size) bs limit l.3)

-- A layout depends on the memory from its start on.
pub Layout-ext :
    (m m' : Memory) (prev a : ℕ) (bs : List Block) (limit : ℕ)
    → ((x : ℕ) → a ≤ x → m' x ≡ m x)
    → Layout m prev a bs limit
    → Layout m' prev a bs limit
Layout-ext m m' prev a [] limit same l = l
Layout-ext m m' prev a (b ∷ bs) limit same l = (
  fields_ext m m' a (λ x p q. same x p) ∙ l.0,
  l.1,
  l.2,
  Layout-ext m m' a (a + b.size) bs limit (λ x p. same x (omega arith)) l.3,
)

-- A changed back link.
pub Layout-relink :
    (m m' : Memory) (prev prev' a : ℕ) (bs : List Block) (limit : ℕ)
    → (fields m' (next_addr a bs) ≡ record (fields m (next_addr a bs)) { previous = prev' })
    → ((x : ℕ) → a + 32 ≤ x → m' x ≡ m x)
    → Layout m prev a bs limit
    → Layout m' prev' a bs limit
Layout-relink m m' prev prev' a [] limit first same l = l
Layout-relink m m' prev prev' a (b ∷ bs) limit first same l = (
  first ∙ ap (λ (f : Fields). record f { previous = prev' }) l.0,
  l.1,
  l.2,
  Layout-ext m m' a (a + b.size) bs limit (λ x p. same x (omega arith)) l.3,
)
