-- ===== src/Rules/Tokens/Laws.antt =====
-- Laws of the token lists of the rule form (components/rules/RulesWorkspace.tsx).
use clip_to_doc_archive.Text.Laws.{IsTrimmed, trim-IsTrimmed, trim-cons_space}
use clip_to_doc_archive.Text.Splits.{
  HasNone, split-HasNone, split_of_HasNone, split-append, trim-HasNone,
}
use clip_to_doc_archive.Rules.Tokens.{
  is_token_end, collect, parse_token_list_input, join_token_list,
}
use clip_to_doc_archive.Prelude.{
  subst, sym, ◌≡◌, refl, ap, ◌∙◌, false, List, [], ◌∷◌, map, arith, nat_eq, list_eq, is_empty, All,
  contains,
}
use clip_to_doc_archive.Text.{Text, is_space, trim, push_head, split}

-- A token that can stand in the line: trimmed, not empty, and with no comma and no line end.
pub record IsToken (t : Text) : Type 0 where
  pub trimmed : IsTrimmed t
  pub filled : is_empty t ≡ false
  pub whole : HasNone is_token_end t

module _ (lower : Text → Text) where
  -- Trimmed tokens, none empty, whose keys differ from one another and from the keys in `seen`.
  abbrev pub Fresh : List Text → List Text → Type 0
  Fresh seen [] = Unit
  Fresh seen (t ∷ ts) =
      IsTrimmed t
      × (is_empty t ≡ false)
      × (contains seen (lower t) ≡ false)
      × Fresh (lower t ∷ seen) ts

  pub collect-Fresh : (seen raws : List Text) → Fresh seen (collect lower seen raws)
  unfolding collect
  collect-Fresh seen [] = tt
  collect-Fresh seen (raw ∷ raws) = ground (
    arith,
    collect-Fresh seen raws,
    collect-Fresh (lower (trim raw) ∷ seen) raws,
    trim-IsTrimmed raw,
  )

  pub collect-HasNone :
      (seen raws : List Text)
      → All (HasNone is_token_end) raws
      → All (HasNone is_token_end) (collect lower seen raws)
  unfolding collect
  collect-HasNone seen [] h = tt
  collect-HasNone seen (raw ∷ raws) h = ground (
    arith,
    collect-HasNone seen raws h.1,
    collect-HasNone (lower (trim raw) ∷ seen) raws h.1,
    trim-HasNone is_token_end raw h.0,
  )

  -- Spaces around the tokens are all that the collector removes from a fresh list.
  pub collect_of_Fresh :
      (seen raws : List Text) → Fresh seen (map trim raws) → collect lower seen raws ≡ map trim raws
  unfolding collect
  collect_of_Fresh seen [] h = refl
  collect_of_Fresh seen (raw ∷ raws) (trimmed, filled, new, rest) =
      rw (filled, new, collect_of_Fresh (lower (trim raw) ∷ seen) raws rest)

-- The line splits into the tokens, each but the first behind a space.
split-join_token_list :
    (t : Text) (ts : List Text)
    → All (HasNone is_token_end) (t ∷ ts)
    → split is_token_end (join_token_list (t ∷ ts)) ≡ t ∷ map (◌∷◌ 32) ts
unfolding join_token_list is_token_end split
split-join_token_list t [] h = split_of_HasNone is_token_end t h.0
split-join_token_list t (u ∷ us) (h, k) =
    split-append is_token_end t b',' (32 ∷ join_token_list (u ∷ us)) h refl
    ∙ ap (λ pieces. t ∷ push_head 32 pieces) (split-join_token_list u us k)

map-trim_spaced : (ts : List Text) → map trim (map (◌∷◌ 32) ts) ≡ map trim ts
unfolding is_space
map-trim_spaced [] = refl
map-trim_spaced (t ∷ ts) = rw (trim-cons_space 32 t refl, map-trim_spaced ts)

module _ (lower : Text → Text) where
  pub map-trim_of_Fresh : (seen ts : List Text) → Fresh lower seen ts → map trim ts ≡ ts
  map-trim_of_Fresh seen [] h = refl
  map-trim_of_Fresh seen (t ∷ ts) (trimmed, _, _, rest) =
      rw (trimmed, map-trim_of_Fresh (lower t ∷ seen) ts rest)

  -- A list of trimmed tokens that are not empty, differ under the case map and have no comma and
  -- no line end is read back from the line that joins it.
  parse-join_token_list :
      (ts : List Text)
      → Fresh lower [] ts
      → All (HasNone is_token_end) ts
      → parse_token_list_input lower (join_token_list ts) ≡ ts
  unfolding parse_token_list_input join_token_list trim
  parse-join_token_list [] h k = refl
  parse-join_token_list (t ∷ ts) h k =
      let same : map trim (t ∷ map (◌∷◌ 32) ts) ≡ t ∷ ts =
        rw map-trim_spaced (map-trim_of_Fresh [] (t ∷ ts) h) in
      ap (collect lower []) (split-join_token_list t ts k)
      ∙ collect_of_Fresh lower [] (t ∷ map (◌∷◌ 32) ts) (subst (Fresh lower []) (sym same) h)
      ∙ same

  -- Whatever is typed, the tokens that are read are trimmed, not empty, different under the case
  -- map, and have no comma and no line end.
  pub parse_token_list_input-Fresh :
      (value : Text)
      → Fresh lower [] (parse_token_list_input lower value)
        × All (HasNone is_token_end) (parse_token_list_input lower value)
  unfolding parse_token_list_input
  parse_token_list_input-Fresh value = (
    collect-Fresh lower [] (split is_token_end value),
    collect-HasNone lower [] (split is_token_end value) (split-HasNone is_token_end value),
  )

  -- Showing the tokens of a line and reading them again changes nothing, for every line.
  pub parse-join-parse_token_list_input :
      (value : Text)
      → parse_token_list_input lower (join_token_list (parse_token_list_input lower value))
        ≡ parse_token_list_input lower value
  parse-join-parse_token_list_input value =
      let h = parse_token_list_input-Fresh value in
      parse-join_token_list (parse_token_list_input lower value) h.0 h.1
