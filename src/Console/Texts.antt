-- ===== src/Console/Texts.antt =====
-- Texts in memory, as lists of their characters.
use tiny_bios.Prelude.{
  ℕ, zero, suc, ◌+◌, ◌≤◌, ◌<◌, ◌≡◌, refl, ap, ◌∙◌, arith, true, some, List, [], ◌∷◌, length, get_or,
  ◌!=◌,
}
use tiny_bios.Memory.{Memory, store8}
use tiny_bios.Memory.Words.{store8-same, store8-other}
use tiny_bios.Text.{strlen}
use tiny_bios.Console.{characters, blog, store_characters}

-- The character at an index, or 0 behind the end.
abbrev pub char_at : List ℕ → ℕ → ℕ
char_at cs i = get_or cs i 0

-- The memory holds a text at an address, with a 0 behind it.
abbrev pub Holds : Memory → ℕ → List ℕ → Type 0
Holds m a cs = (i : ℕ) → i ≤ length cs → m (a + i) ≡ char_at cs i

-- The characters are bytes, and none ends the text.
unfoldable pub NoZero : List ℕ → Type 0
NoZero [] = Unit
NoZero (c ∷ cs) = (0 < c) × (c < 256) × NoZero cs

pub char_at-length : (cs : List ℕ) → char_at cs (length cs) ≡ 0
char_at-length [] = refl
char_at-length (c ∷ cs) = char_at-length cs

pub Holds-at : (m : Memory) (a : ℕ) (c : ℕ) (cs : List ℕ) → Holds m a (c ∷ cs) → m a ≡ c
Holds-at m a c cs h = ap m (omega arith) ∙ h 0 (omega arith)

pub Holds-next :
    (m : Memory) (a : ℕ) (c : ℕ) (cs : List ℕ) → Holds m a (c ∷ cs) → Holds m (a + 1) cs
Holds-next m a c cs h i le = ap m (omega arith) ∙ h (suc i) (omega arith)

pub Holds-end : (m : Memory) (a : ℕ) → Holds m a [] → m a ≡ 0
Holds-end m a h = ap m (omega arith) ∙ h 0 (omega arith)

pub characters-Holds :
    (cs : List ℕ) (m : Memory) (a : ℕ) → Holds m a cs → characters m a (length cs) ≡ cs
unfolding characters
characters-Holds [] m a h = refl
characters-Holds (c ∷ cs) m a h =
    rw (Holds-at m a c cs h)
      (ap (λ t. c ∷ t) (characters-Holds cs m (a + 1) (Holds-next m a c cs h)))

strlen-from :
    (cs : List ℕ) (fuel i : ℕ) (m : Memory) (a : ℕ)
    → Holds m (a + i) cs
    → NoZero cs
    → length cs < fuel
    → strlen fuel m a i ≡ some (i + length cs)
unfolding strlen NoZero
strlen-from cs zero i m a h p small = absurd (omega arith)
strlen-from [] (suc fuel) i m a h p small = rw (Holds-end m (a + i) h) (ap some (omega arith))
strlen-from (c ∷ cs) (suc fuel) i m a h p small = rw (Holds-at m (a + i) c cs h) (
    rw (nonzero c (p.0)) (
      strlen-from cs fuel (i + 1) m a (λ j le. ap m (omega arith) ∙ h (suc j) (omega arith)) (p.2)
        (omega arith)
      ∙ ap some (omega arith)))
  where
    nonzero : (x : ℕ) → 0 < x → (x != 0) ≡ true
    nonzero x pos = ground arith

pub strlen-Holds :
    (cs : List ℕ) (fuel : ℕ) (m : Memory) (a : ℕ)
    → Holds m a cs
    → NoZero cs
    → length cs < fuel
    → strlen fuel m a 0 ≡ some (length cs)
strlen-Holds cs fuel m a h p small =
    strlen-from cs fuel 0 m a (λ i le. ap m (omega arith) ∙ h i le) p small ∙ ap some (omega arith)

-- `blog` sends the text that the memory holds.
pub blog-Holds :
    (cs : List ℕ) (fuel : ℕ) (m : Memory) (a : ℕ)
    → Holds m a cs
    → NoZero cs
    → length cs < fuel
    → blog fuel true m a ≡ some (cs ∷ [])
unfolding blog
blog-Holds cs fuel m a h p small =
    rw (strlen-Holds cs fuel m a h p small) (ap (λ t. some (t ∷ [])) (characters-Holds cs m a h))

pub store_characters-before :
    (cs : List ℕ) (dst : ℕ) (m : Memory) (x : ℕ) → x < dst → store_characters cs dst m x ≡ m x
unfolding store_characters
store_characters-before [] dst m x h = refl
store_characters-before (c ∷ cs) dst m x h =
    store_characters-before cs (dst + 1) (store8 m dst c) x (omega arith)
    ∙ store8-other m dst c x (omega arith)

pub store_characters-behind :
    (cs : List ℕ) (dst : ℕ) (m : Memory) (x : ℕ)
    → dst + length cs ≤ x
    → store_characters cs dst m x ≡ m x
unfolding store_characters
store_characters-behind [] dst m x h = refl
store_characters-behind (c ∷ cs) dst m x h =
    store_characters-behind cs (dst + 1) (store8 m dst c) x (omega arith)
    ∙ store8-other m dst c x (omega arith)

pub store_characters-at :
    (cs : List ℕ) (dst : ℕ) (m : Memory) (i : ℕ)
    → NoZero cs
    → i < length cs
    → store_characters cs dst m (dst + i) ≡ char_at cs i
unfolding store_characters NoZero
store_characters-at [] dst m i p h = absurd (omega arith)
store_characters-at (c ∷ cs) dst m zero p h =
    store_characters-before cs (dst + 1) (store8 m dst c) (dst + 0) (omega arith)
    ∙ ap (store8 m dst c) (omega arith)
    ∙ store8-same m dst c
    ∙ omega (arith, p.0, p.1)
store_characters-at (c ∷ cs) dst m (suc i) p h =
    ap (store_characters cs (dst + 1) (store8 m dst c)) (omega arith)
    ∙ store_characters-at cs (dst + 1) (store8 m dst c) i (p.2) (omega arith)
