-- ===== src/Console/Rounds.antt =====
-- One round of `vfblogf` at each kind of piece.
use tiny_bios.Prelude.{
  ℕ, ◌+◌, ◌<◌, ◌≤◌, ◌≡◌, ◌≢◌, refl, ap, ◌∙◌, arith, true, false, some, List, [], ◌∷◌, ◌++◌, length,
  ◌==◌, ◌^◌,
}
use mathlib.Core.List.{append_assoc}
use tiny_bios.Memory.{Memory}
use tiny_bios.Console.{
  bputchar, convert_text, convert_number, convert_character, convert, format_round,
}
use tiny_bios.Console.Texts.{Holds, NoZero, Holds-at, Holds-next, strlen-Holds, blog-Holds}
use tiny_bios.Console.Numbers.{bputint_lem}
use tiny_bios.Console.Pieces.{
  Piece, plain, text, hexadecimal, decimal, character, spell_width, spell, arguments_of, printed,
  counted,
}
use tiny_bios.Console.Width.{conversion_lem}

-- A text that is held in front of another.
pub Holds-suffix :
    (cs ds : List ℕ) (m : Memory) (a : ℕ) → Holds m a (cs ++ ds) → Holds m (a + length cs) ds
Holds-suffix [] ds m a h i le = ap m (omega arith) ∙ h i le
Holds-suffix (c ∷ cs) ds m a h i le =
    ap m (omega arith) ∙ Holds-suffix cs ds m (a + 1) (Holds-next m a c (cs ++ ds) h) i le

module _ (fuel : ℕ) (enough : 16 < fuel) (m : Memory) (tmp : ℕ) (room : tmp + 33 < 2 ^ 64) where
  -- A round that prints one piece, and stops at its last character.
  abbrev pub Prints : (f e : ℕ) (args : List ℕ) (p : Piece) → Type 0
  Prints f e args p =
      format_round fuel true m tmp f (arguments_of p args) false
      ≡ some (record {
        format = e;
        args = args;
        escaped = false;
        added = counted p;
        calls = printed p ∷ [];
      })

  module _ (f : ℕ) (args : List ℕ) where
    pub plain-Prints : (c : ℕ) → m f ≡ c → c ≢ 0x5c → c ≢ 0x25 → Prints f f args (plain c)
    unfolding format_round bputchar arguments_of counted printed
    plain-Prints c at no_escape no_percent =
        rw at (rw (differs c 0x5c no_escape) (rw (differs c 0x25 no_percent) refl))
      where
        differs : (x y : ℕ) → x ≢ y → (x == y) ≡ false
        differs x y ne = ground arith

    pub character-Prints :
        (c : ℕ) → m f ≡ 0x25 → m (f + 1) ≡ 0x63 → Prints f (f + 1) args (character c)
    unfolding format_round convert convert_character bputchar arguments_of counted printed
    character-Prints c at next = rw at (rw next refl)

    pub text-Prints :
        (a : ℕ) (cs : List ℕ)
        → Holds m a cs
        → NoZero cs
        → length cs < fuel
        → m f ≡ 0x25
        → m (f + 1) ≡ 0x73
        → Prints f (f + 1) args (text a cs)
    unfolding format_round convert convert_text arguments_of counted printed
    text-Prints a cs h p small at next = rw at (
        rw next
          (rw (blog-Holds cs fuel m a h p small) (rw (strlen-Holds cs fuel m a h p small) refl)))

    number-Prints :
        (letter : ℕ)
        → 0x3a ≤ letter
        → letter < 0x80
        → (width d base : ℕ) (rest : List ℕ) → width ≤ 16
        → Holds m f (0x25 ∷ (spell_width width ++ letter ∷ rest))
        → (m (f + 1 + length (spell_width width)) ≡ letter)
          × (format_round fuel true m tmp f (d ∷ args) false
              ≡ convert fuel true m tmp width (f + 1 + length (spell_width width)) (d ∷ args))
    unfolding format_round
    number-Prints letter low high width d base rest small h = (
      Holds-at m (f + 1 + length (spell_width width)) letter rest
          (Holds-suffix (spell_width width) (letter ∷ rest) m (f + 1) (Holds-next m f 0x25 _ h)),
      rw (Holds-at m f 0x25 _ h) (
          conversion_lem fuel enough m tmp room letter low high rest (f + 1) (d ∷ args) width small
            (Holds-next m f 0x25 _ h)),
    )

    pub hexadecimal-Prints :
        (width d : ℕ) (rest : List ℕ)
        → width ≤ 16
        → Holds m f (spell (hexadecimal width d) ++ rest)
        → (m (f + 1 + length (spell_width width)) ≡ 0x78)
          × Prints f (f + 1 + length (spell_width width)) args (hexadecimal width d)
    unfolding convert convert_number spell arguments_of counted printed
    hexadecimal-Prints width d rest small h =
        let (at, same) =
          number-Prints 0x78 (omega arith) (omega arith) width d 16 rest small (regroup h) in
        (at, same ∙ rw at (rw (bputint_lem m tmp d 16 fuel enough width small room) refl))
      where
        regroup :
            Holds m f (0x25 ∷ ((spell_width width ++ 0x78 ∷ []) ++ rest))
            → Holds m f (0x25 ∷ (spell_width width ++ 0x78 ∷ rest))
        regroup k = rw (append_assoc (spell_width width) (0x78 ∷ []) rest) at k

    pub decimal-Prints :
        (width d : ℕ) (rest : List ℕ)
        → width ≤ 16
        → Holds m f (spell (decimal width d) ++ rest)
        → (m (f + 1 + length (spell_width width)) ≡ 0x64)
          × Prints f (f + 1 + length (spell_width width)) args (decimal width d)
    unfolding convert convert_number spell arguments_of counted printed
    decimal-Prints width d rest small h =
        let (at, same) =
          number-Prints 0x64 (omega arith) (omega arith) width d 10 rest small (regroup h) in
        (at, same ∙ rw at (rw (bputint_lem m tmp d 10 fuel enough width small room) refl))
      where
        regroup :
            Holds m f (0x25 ∷ ((spell_width width ++ 0x64 ∷ []) ++ rest))
            → Holds m f (0x25 ∷ (spell_width width ++ 0x64 ∷ rest))
        regroup k = rw (append_assoc (spell_width width) (0x64 ∷ []) rest) at k
