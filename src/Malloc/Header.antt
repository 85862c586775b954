-- ===== src/Malloc/Header.antt =====
-- What the fields of a header read after a write.
use tiny_bios.Prelude.{ℕ, ◌+◌, ◌^◌, ◌≤◌, ◌<◌, ◌≡◌, Bool, arith, if◌then◌else◌}
use tiny_bios.Memory.{Memory}
use tiny_bios.Memory.Words.{
  Apart, store8-same, store8-other, store64-other, load64-store64_same, load64-store64-Apart,
  load64-store8-Apart, load64_ext,
}
use tiny_bios.Malloc.{previous, next, size, is_free, set_previous, set_next, set_size, set_free}

-- Two headers that do not overlap.
abbrev pub Clear : ℕ → ℕ → Type 0
Clear h g = Apart h 32 g 32

-- `m'` differs from `m` at most within the `n` bytes from `a` on.
abbrev pub SameBut : (a n : ℕ) → Memory → Memory → Type 0
SameBut a n m m' = (x : ℕ) → Apart a n x 1 → m' x ≡ m x

-- The four fields of a header.
pub record Fields : Type 0 where
  pub previous : ℕ
  pub next : ℕ
  pub size : ℕ
  pub is_free : Bool

abbrev pub fields : Memory → ℕ → Fields
fields m h = record {
  previous = previous m h;
  next = next m h;
  size = size m h;
  is_free = is_free m h;
}

pub fields_ext :
    (m m' : Memory) (h : ℕ) → ((x : ℕ) → h ≤ x → x < h + 32 → m' x ≡ m x) → fields m' h ≡ fields m h
unfolding previous next size is_free
fields_ext m m' h same = ground (
  arith,
  load64_ext m m' h (λ x p q. same x (omega arith) (omega arith)),
  load64_ext m m' (h + 8) (λ x p q. same x (omega arith) (omega arith)),
  load64_ext m m' (h + 16) (λ x p q. same x (omega arith) (omega arith)),
  same (h + 24),
)

module _ (m : Memory) (h v : ℕ) where
  pub set_previous-same :
      v < 2 ^ 64 → fields (set_previous h v m) h ≡ record (fields m h) { previous = v }
  unfolding previous next size is_free set_previous
  set_previous-same small = ground (
    arith,
    load64-store64_same m h v,
    load64-store64-Apart m h v (h + 8),
    load64-store64-Apart m h v (h + 16),
    store64-other m h v (h + 24),
  )

  pub set_next-same : v < 2 ^ 64 → fields (set_next h v m) h ≡ record (fields m h) { next = v }
  unfolding previous next size is_free set_next
  set_next-same small = ground (
    arith,
    load64-store64_same m (h + 8) v,
    load64-store64-Apart m (h + 8) v h,
    load64-store64-Apart m (h + 8) v (h + 16),
    store64-other m (h + 8) v (h + 24),
  )

  pub set_size-same : v < 2 ^ 64 → fields (set_size h v m) h ≡ record (fields m h) { size = v }
  unfolding previous next size is_free set_size
  set_size-same small = ground (
    arith,
    load64-store64_same m (h + 16) v,
    load64-store64-Apart m (h + 16) v h,
    load64-store64-Apart m (h + 16) v (h + 8),
    store64-other m (h + 16) v (h + 24),
  )

  pub set_previous-SameBut : SameBut h 8 m (set_previous h v m)
  unfolding set_previous
  set_previous-SameBut x apart = store64-other m h v x apart

  pub set_next-SameBut : SameBut h 32 m (set_next h v m)
  unfolding set_next
  set_next-SameBut x apart = store64-other m (h + 8) v x (omega arith)

  pub set_size-SameBut : SameBut h 32 m (set_size h v m)
  unfolding set_size
  set_size-SameBut x apart = store64-other m (h + 16) v x (omega arith)

module _ (m : Memory) (h : ℕ) (b : Bool) where
  pub set_free-same : fields (set_free h b m) h ≡ record (fields m h) { is_free = b }
  unfolding previous next size is_free set_free
  set_free-same = ground (
    arith,
    store8-same m (h + 24) (if b then 1 else 0),
    load64-store8-Apart m (h + 24) (if b then 1 else 0) h,
    load64-store8-Apart m (h + 24) (if b then 1 else 0) (h + 8),
    load64-store8-Apart m (h + 24) (if b then 1 else 0) (h + 16),
  )

  pub set_free-SameBut : SameBut h 32 m (set_free h b m)
  unfolding set_free
  set_free-SameBut x apart = store8-other m (h + 24) (if b then 1 else 0) x (omega arith)

-- A header outside what has changed reads as before.
pub fields-Apart :
    {m m' : Memory} (a n h : ℕ) → SameBut a n m m' → Apart a n h 32 → fields m' h ≡ fields m h
fields-Apart {m} {m'} a n h same apart = fields_ext m m' h (λ x p q. same x (omega arith))
