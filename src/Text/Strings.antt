-- ===== src/Text/Strings.antt =====
-- What `strlen` and `strncmp` compute.
use tiny_bios.Prelude.{
  ℕ, zero, suc, ◌+◌, ◌<◌, ◌≡◌, ◌≢◌, ◌↔◌, refl, arith, ap, ◌∙◌, some, true, ◌||◌, ◌==◌, ◌!=◌,
  if◌then◌else◌,
}
use tiny_bios.Memory.{Memory}
use tiny_bios.Text.{strlen, strncmp}

strlen_from :
    (n i : ℕ) (m : Memory) (str : ℕ)
    → ((j : ℕ) → j < n → m (str + (i + j)) ≢ 0)
    → m (str + (i + n)) ≡ 0
    → strlen (suc n) m str i ≡ some (i + n)
unfolding strlen
strlen_from zero i m str before here =
    let at : m (str + i) ≡ 0 = ap (λ k. m k) (omega arith) ∙ here in rw at (ap some (omega arith))
strlen_from (suc n) i m str before here =
    let first : m (str + i) ≢ 0 = λ e. before 0 (omega arith) (ap (λ k. m k) (omega arith) ∙ e) in
    let more : (m (str + i) != 0) ≡ true = ground (arith, first) in
    rw more (
      strlen_from n (i + 1) m str
        (λ j h e. before (suc j) (omega arith) (ap (λ k. m k) (omega arith) ∙ e))
        (ap (λ k. m k) (omega arith) ∙ here)
      ∙ ap some (omega arith))

-- With one round more than there are bytes before the first 0, `strlen` gives their number.
pub strlen_lem :
    (n : ℕ) (m : Memory) (str : ℕ)
    → ((j : ℕ) → j < n → m (str + j) ≢ 0)
    → m (str + n) ≡ 0
    → strlen (suc n) m str 0 ≡ some n
strlen_lem n m str before here =
    strlen_from n 0 m str (λ j h e. before j h (ap (λ k. m k) (omega arith) ∙ e))
      (ap (λ k. m k) (omega arith) ∙ here)
    ∙ ap some (omega arith)

-- Up to the first 0 of the first string, the two have the same bytes, of `n` at most.
abbrev pub Same : ℕ → Memory → (s1 s2 : ℕ) → Type 0
Same n m s1 s2 = (i : ℕ) → i < n → ((j : ℕ) → j < i → m (s1 + j) ≢ 0) → m (s1 + i) ≡ m (s2 + i)

-- What one round adds is 0 exactly if the bytes are the same and, behind a byte that is not 0, the
-- rest adds 0.
differing :
    (a b rest : ℕ)
    → (if a != b then 1 else 0) + (if (a == 0) || (b == 0) then 0 else rest) ≡ 0
    → (a ≡ b) × (a ≢ 0 → rest ≡ 0)
differing a b rest h = (ground arith, λ ne. ground arith)

agreeing :
    (a b rest : ℕ)
    → a ≡ b
    → (a ≢ 0 → rest ≡ 0)
    → (if a != b then 1 else 0) + (if (a == 0) || (b == 0) then 0 else rest) ≡ 0
agreeing a b rest e later = ground arith

module _ (m : Memory) where
  zero-Same : (n s1 s2 : ℕ) → strncmp n m s1 s2 ≡ 0 → Same n m s1 s2
  unfolding strncmp
  zero-Same zero s1 s2 h i lt before = absurd (omega arith)
  zero-Same (suc n) s1 s2 h zero lt before =
      ap (λ k. m k) (omega arith) ∙ (differing _ _ _ h).0 ∙ ap (λ k. m k) (omega arith)
  zero-Same (suc n) s1 s2 h (suc i) lt before =
      let first : m s1 ≢ 0 = λ e. before 0 (omega arith) (ap (λ k. m k) (omega arith) ∙ e) in
      ap (λ k. m k) (omega arith)
      ∙ zero-Same n (s1 + 1) (s2 + 1) ((differing _ _ _ h).1 first) i (omega arith)
          (λ j lt' e. before (suc j) (omega arith) (ap (λ k. m k) (omega arith) ∙ e))
      ∙ ap (λ k. m k) (omega arith)

  nonzero_from :
      (i s : ℕ)
      → m s ≢ 0
      → ((j : ℕ) → j < i → m (s + 1 + j) ≢ 0)
      → (j : ℕ) → j < suc i
      → m (s + j) ≢ 0
  nonzero_from i s first before zero lt e = first (ap (λ k. m k) (omega arith) ∙ e)
  nonzero_from i s first before (suc j) lt e =
      before j (omega arith) (ap (λ k. m k) (omega arith) ∙ e)

  Same-zero : (n s1 s2 : ℕ) → Same n m s1 s2 → strncmp n m s1 s2 ≡ 0
  unfolding strncmp
  Same-zero zero s1 s2 same = refl
  Same-zero (suc n) s1 s2 same =
      agreeing (m s1) (m s2) _
        (ap (λ k. m k) (omega arith)
          ∙ same 0 (omega arith) (λ j lt. absurd (omega arith))
          ∙ ap (λ k. m k) (omega arith))
        (λ first. Same-zero n (s1 + 1) (s2 + 1) (λ i lt before.
          ap (λ k. m k) (omega arith)
          ∙ same (suc i) (omega arith) (nonzero_from i (s1) first before)
          ∙ ap (λ k. m k) (omega arith)))

-- `strncmp` is 0 exactly when the strings have the same bytes up to the first 0 of the first one, of
-- `n` bytes at most.
pub strncmp-Same : (n : ℕ) (m : Memory) (s1 s2 : ℕ) → (strncmp n m s1 s2 ≡ 0) ↔ Same n m s1 s2
strncmp-Same n m s1 s2 = (zero-Same m n s1 s2, Same-zero m n s1 s2)
