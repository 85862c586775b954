-- ===== src/Console/Format.antt =====
-- What `vfblogf` prints for a format of pieces.
use tiny_bios.Prelude.{
  ℕ, zero, suc, ◌+◌, ◌*◌, ◌<◌, ◌≡◌, ◌≢◌, refl, sym, ap, ◌∙◌, arith, Bool, true, false, Option, some,
  List, [], ◌∷◌, ◌++◌, length, length-append, ◌==◌, ◌^◌,
}
use tiny_bios.Memory.{Memory}
use tiny_bios.Console.{Calls, bputchar, format_round, format_loop, vfblogf}
use tiny_bios.Console.Texts.{Holds, Holds-at, Holds-next, Holds-end}
use tiny_bios.Console.Pieces.{
  Piece, plain, literal, text, hexadecimal, decimal, character, spell_width, spell, arguments_of,
  printed, counted, format_of, all_arguments, all_calls, all_counted, IsProper, AllProper,
}
use tiny_bios.Console.Rounds.{
  Holds-suffix, Prints, plain-Prints, character-Prints, text-Prints, hexadecimal-Prints,
  decimal-Prints,
}

module _ (fuel : ℕ) (enough : 16 < fuel) (m : Memory) (tmp : ℕ) (room : tmp + 33 < 2 ^ 64) where
  -- The loop behind a round that did not read a 0.
  abbrev loop : (rounds f : ℕ) → List ℕ → (escaped : Bool) → (written : ℕ) → Option (Calls × ℕ)
  loop = format_loop fuel true m tmp

  loop_next :
      (rounds f e : ℕ) (given args : List ℕ) (escaped now : Bool) (written n : ℕ)
      (calls more : Calls) (total : ℕ)
      → format_round fuel true m tmp f given escaped
        ≡ some (record { format = e; args = args; escaped = now; added = n; calls = calls })
      → m e ≢ 0
      → loop rounds (e + 1) args now (written + n) ≡ some (more, total)
      → loop (suc rounds) f given escaped written ≡ some (calls ++ more, total)
  unfolding format_loop
  loop_next rounds f e given args escaped now written n calls more total round going rest =
      rw round (rw (nonzero (m e) going) (rw rest refl))
    where
      nonzero : (x : ℕ) → x ≢ 0 → (x == 0) ≡ false
      nonzero x ne = ground arith

  piece_next :
      (p : Piece) (ps : List Piece) (rounds f e written : ℕ)
      → Prints fuel enough m tmp room f e (all_arguments ps) p
      → m e ≢ 0
      → e + 1 ≡ f + length (spell p)
      → loop rounds (f + length (spell p)) (all_arguments ps) false (written + counted p)
        ≡ some (all_calls ps, written + counted p + all_counted ps)
      → loop (suc rounds) f (arguments_of p (all_arguments ps)) false written
        ≡ some (printed p ∷ all_calls ps, written + (counted p + all_counted ps))
  piece_next p ps rounds f e written prints going there rest =
      loop_next rounds f e _ (all_arguments ps) false false written (counted p) (printed p ∷ [])
        (all_calls ps) (written + counted p + all_counted ps) prints going
        (ap (λ x. loop rounds x (all_arguments ps) false (written + counted p)) there ∙ rest)
      ∙ ap (λ (t : ℕ). some (printed p ∷ all_calls ps, t)) (omega arith)

  nil_lem :
      (rounds f written : ℕ)
      → m f ≡ 0
      → loop (suc rounds) f [] false written ≡ some ((0 ∷ []) ∷ [], written + 1)
  unfolding format_loop arguments_of counted printed
  nil_lem rounds f written at =
      rw
        (plain-Prints fuel enough m tmp room f [] 0 at (λ e. absurd (omega (arith, e)))
          (λ e. absurd (omega (arith, e))))
        (rw at refl)

  literal_lem :
      (c : ℕ) (ps : List Piece) (rounds f written : ℕ)
      → m f ≡ 0x5c
      → m (f + 1) ≡ c
      → 0 < c
      → loop rounds (f + 2) (all_arguments ps) false written
        ≡ some (all_calls ps, written + all_counted ps)
      → loop (suc (suc rounds)) f (all_arguments ps) false written
        ≡ some ((c ∷ []) ∷ all_calls ps, written + (0 + all_counted ps))
  unfolding format_round bputchar
  literal_lem c ps rounds f written at next pos rest =
      loop_next (suc rounds) f f _ (all_arguments ps) false true written 0 [] _ _ (rw at refl)
        (omega (arith, at))
        (loop_next rounds (f + 1) (f + 1) _ (all_arguments ps) true false (written + 0) 0
          ((c ∷ []) ∷ []) (all_calls ps) (written + all_counted ps) (rw next refl)
          (omega (arith, next))
          (same (f + 2) (f + 1 + 1) written (written + 0 + 0) (omega arith) (omega arith) ∙ rest))
      ∙ ap (λ (t : ℕ). some ((c ∷ []) ∷ all_calls ps, t)) (omega arith)
    where
      same :
          (x y v w : ℕ)
          → x ≡ y
          → v ≡ w
          → loop rounds y (all_arguments ps) false w ≡ loop rounds x (all_arguments ps) false v
      same x y v w p q = λ i. loop rounds (sym p i) (all_arguments ps) false (sym q i)

  loop_lem :
      (ps : List Piece) (rounds f written : ℕ)
      → Holds m f (format_of ps)
      → AllProper fuel m ps
      → 2 * length ps < rounds
      → loop rounds f (all_arguments ps) false written
        ≡ some (all_calls ps, written + all_counted ps)
  unfolding format_of all_arguments all_calls all_counted AllProper IsProper spell arguments_of
      printed counted
  loop_lem ps zero f written h proper small = absurd (omega arith)
  loop_lem [] (suc rounds) f written h proper small = nil_lem rounds f written (Holds-end m f h)
  loop_lem (literal c ∷ ps) (suc zero) f written h proper small = absurd (omega arith)
  loop_lem (literal c ∷ ps) (suc (suc rounds)) f written h proper small =
      literal_lem c ps rounds f written (Holds-at m f 0x5c (c ∷ format_of ps) h)
        (Holds-at m (f + 1) c (format_of ps) (Holds-next m f 0x5c (c ∷ format_of ps) h)) (proper.0)
        (loop_lem ps rounds (f + 2) written (Holds-suffix (0x5c ∷ c ∷ []) (format_of ps) m f h)
          (proper.1) (omega arith))
  loop_lem (plain c ∷ ps) (suc rounds) f written h proper small =
      piece_next (plain c) ps rounds f (f) written
        (plain-Prints fuel enough m tmp room f (all_arguments ps) c
          (Holds-at m f c (format_of ps) h) (proper.0.1) (proper.0.2))
        (omega (arith, Holds-at m f c (format_of ps) h, proper.0.0)) (refl)
        (loop_lem ps rounds (f + length (spell (plain c))) (written + counted (plain c))
          (Holds-suffix (spell (plain c)) (format_of ps) m f h) (proper.1) (omega arith))
  loop_lem (text a cs ∷ ps) (suc rounds) f written h proper small =
      piece_next (text a cs) ps rounds f (f + 1) written
        (text-Prints fuel enough m tmp room f (all_arguments ps) a cs (proper.0.0) (proper.0.1)
          (proper.0.2) (Holds-at m f 0x25 (0x73 ∷ format_of ps) h)
          (Holds-at m (f + 1) 0x73 (format_of ps) (Holds-next m f 0x25 (0x73 ∷ format_of ps) h)))
        (omega (
          arith,
          Holds-at m (f + 1) 0x73 (format_of ps) (Holds-next m f 0x25 (0x73 ∷ format_of ps) h),
        ))
        (omega arith)
        (loop_lem ps rounds (f + length (spell (text a cs))) (written + counted (text a cs))
          (Holds-suffix (spell (text a cs)) (format_of ps) m f h) (proper.1) (omega arith))
  loop_lem (character c ∷ ps) (suc rounds) f written h proper small =
      piece_next (character c) ps rounds f (f + 1) written
        (character-Prints fuel enough m tmp room f (all_arguments ps) c
          (Holds-at m f 0x25 (0x63 ∷ format_of ps) h)
          (Holds-at m (f + 1) 0x63 (format_of ps) (Holds-next m f 0x25 (0x63 ∷ format_of ps) h)))
        (omega (
          arith,
          Holds-at m (f + 1) 0x63 (format_of ps) (Holds-next m f 0x25 (0x63 ∷ format_of ps) h),
        ))
        (omega arith)
        (loop_lem ps rounds (f + length (spell (character c))) (written + counted (character c))
          (Holds-suffix (spell (character c)) (format_of ps) m f h) (proper.1) (omega arith))
  loop_lem (hexadecimal width d ∷ ps) (suc rounds) f written h proper small =
      let (at, prints) =
        hexadecimal-Prints fuel enough m tmp room f (all_arguments ps) width d (format_of ps)
          (proper.0) h in
      piece_next (hexadecimal width d) ps rounds f (f + 1 + length (spell_width width)) written
        (prints) (omega (arith, at)) (omega (arith, length-append (spell_width width) (0x78 ∷ [])))
        (loop_lem ps rounds (f + length (spell (hexadecimal width d)))
          (written + counted (hexadecimal width d))
          (Holds-suffix (spell (hexadecimal width d)) (format_of ps) m f h) (proper.1)
          (omega arith))
  loop_lem (decimal width d ∷ ps) (suc rounds) f written h proper small =
      let (at, prints) =
        decimal-Prints fuel enough m tmp room f (all_arguments ps) width d (format_of ps) (proper.0)
          h in
      piece_next (decimal width d) ps rounds f (f + 1 + length (spell_width width)) written (prints)
        (omega (arith, at)) (omega (arith, length-append (spell_width width) (0x64 ∷ [])))
        (loop_lem ps rounds (f + length (spell (decimal width d)))
          (written + counted (decimal width d))
          (Holds-suffix (spell (decimal width d)) (format_of ps) m f h) (proper.1) (omega arith))

  -- For a format spelled from proper pieces and held in memory, with twice as many rounds as pieces and one more, and
  -- more than 16 rounds for each text: `vfblogf` ends, makes one call for each piece, in order, with what the piece
  -- prints, and one more for the 0 that ends the format, and returns the sum of what the pieces count, and 1 for the 0.
  pub vfblogf_lem :
      (ps : List Piece) (rounds f : ℕ)
      → Holds m f (format_of ps)
      → AllProper fuel m ps
      → 2 * length ps < rounds
      → vfblogf fuel true m tmp rounds f (all_arguments ps) ≡ some (all_calls ps, all_counted ps)
  unfolding vfblogf
  vfblogf_lem ps rounds f h proper small =
      loop_lem ps rounds f 0 h proper small ∙ ap (λ (t : ℕ). some (all_calls ps, t)) (omega arith)
