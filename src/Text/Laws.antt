-- ===== src/Text/Laws.antt =====
-- Laws of `trim`.
use clip_to_doc_archive.Prelude.{ℕ, ◌≡◌, refl, true, [], ◌∷◌, arith, nat_eq, list_eq}
use clip_to_doc_archive.Text.{Text, is_space, trim_start, trim_end, trim}

-- Nothing to trim at either end.
abbrev pub IsTrimmed : Text → Type 0
IsTrimmed s = trim s ≡ s

trim_end_idem : (s : Text) → trim_end (trim_end s) ≡ trim_end s
unfolding trim_end
trim_end_idem [] = refl
trim_end_idem (c ∷ s) = ground (arith, trim_end_idem s)

-- Trimming the end leaves the trimmed start as it is.
trim_start-trim_end : (s : Text) → trim_start (trim_end (trim_start s)) ≡ trim_end (trim_start s)
unfolding trim_start trim_end
trim_start-trim_end [] = refl
trim_start-trim_end (c ∷ s) = ground (arith, trim_start-trim_end s)

pub trim-IsTrimmed : (s : Text) → IsTrimmed (trim s)
unfolding trim
trim-IsTrimmed s = rw trim_start-trim_end (trim_end_idem (trim_start s))

-- White space in front is removed.
pub trim-cons_space : (c : ℕ) (s : Text) → is_space c ≡ true → trim (c ∷ s) ≡ trim s
unfolding trim trim_start
trim-cons_space c s h = rw h refl
