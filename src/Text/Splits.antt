-- ===== src/Text/Splits.antt =====
-- Laws of `split` and `join`.
use clip_to_doc_archive.Prelude.{
  ℕ, ◌≡◌, refl, Bool, true, false, List, [], ◌∷◌, ◌++◌, arith, nat_eq, list_eq, All,
}
use clip_to_doc_archive.Text.{Text, split, push_head, trim, trim_start, trim_end}

module _ (sep : ℕ → Bool) where
  -- No code unit of the text is a separator.
  abbrev pub HasNone : Text → Type 0
  HasNone s = All (λ c. sep c ≡ false) s

  push_head-HasNone :
      (c : ℕ) (pieces : List Text)
      → sep c ≡ false
      → All HasNone pieces
      → All HasNone (push_head c pieces)
  push_head-HasNone c [] h k = ((h, tt), tt)
  push_head-HasNone c (piece ∷ pieces) h k = ((h, k.0), k.1)

  pub split-HasNone : (s : Text) → All HasNone (split sep s)
  unfolding split
  split-HasNone [] = (tt, tt)
  split-HasNone (c ∷ s) = ground (arith, split-HasNone s, push_head-HasNone c (split sep s))

  -- A text with no separator is one piece.
  pub split_of_HasNone : (s : Text) → HasNone s → split sep s ≡ s ∷ []
  unfolding split
  split_of_HasNone [] h = refl
  split_of_HasNone (c ∷ s) h = rw (h.0, split_of_HasNone s h.1)

  -- A separator behind a text with none ends its first piece.
  pub split-append :
      (s : Text) (c : ℕ) (rest : Text)
      → HasNone s
      → sep c ≡ true
      → split sep (s ++ c ∷ rest) ≡ s ∷ split sep rest
  unfolding split
  split-append [] c rest h k = rw k
  split-append (d ∷ s) c rest h k = rw (h.0, split-append s c rest h.1 k)

  trim_start-HasNone : (s : Text) → HasNone s → HasNone (trim_start s)
  unfolding trim_start
  trim_start-HasNone [] h = tt
  trim_start-HasNone (c ∷ s) h = ground (arith, trim_start-HasNone s h.1)

  trim_end-HasNone : (s : Text) → HasNone s → HasNone (trim_end s)
  unfolding trim_end
  trim_end-HasNone [] h = tt
  trim_end-HasNone (c ∷ s) h = ground (arith, trim_end-HasNone s h.1)

  pub trim-HasNone : (s : Text) → HasNone s → HasNone (trim s)
  unfolding trim
  trim-HasNone s h = trim_end-HasNone (trim_start s) (trim_start-HasNone s h)
