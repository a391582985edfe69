-- ===== src/Archive/Details/Tags.antt =====
-- The tags of a document as one line of text, and back (components/archive/ArchiveWorkspace.tsx).
use clip_to_doc_archive.Rules.Tokens.{is_token_end}
use clip_to_doc_archive.Text.Splits.{HasNone, split-append, split_of_HasNone}
use clip_to_doc_archive.Text.Laws.{trim-cons_space}
use clip_to_doc_archive.Archive.Documents.{parse_tag_input}
use clip_to_doc_archive.Prelude.{
  ap₂, ◌≡◌, refl, ap, ◌∙◌, false, not, List, [], ◌∷◌, map, nat_eq, list_eq, is_empty, keep_if, All,
}
use clip_to_doc_archive.Text.{Text, codes, is_space, trim, push_head, split, join}

-- A tag that the editor can have made: trimmed, not empty, with no comma and no line end.
pub record IsTag (t : Text) : Type 0 where
  pub trimmed : trim t ≡ t
  pub named : is_empty t ≡ false
  pub whole : HasNone is_token_end t

-- What the pieces of the line are: the first tag as it is, each other behind a space.
abbrev spaced : List Text → List Text
spaced [] = []
spaced (t ∷ ts) = (32 ∷ t) ∷ spaced ts

HasNone-space : (t : Text) → HasNone is_token_end t → HasNone is_token_end (32 ∷ t)
HasNone-space t h = (unfold is_token_end in refl, h)

split-space : (s : Text) → split is_token_end (32 ∷ s) ≡ push_head 32 (split is_token_end s)
unfolding split is_token_end
split-space s = refl

split-join :
    (t : Text) (ts : List Text)
    → HasNone is_token_end t
    → All IsTag ts
    → split is_token_end (join (codes ", ") (t ∷ ts)) ≡ t ∷ spaced ts
unfolding join
split-join t [] h k = split_of_HasNone is_token_end t h
split-join t (u ∷ us) h k =
    split-append is_token_end t 44 (32 ∷ join (codes ", ") (u ∷ us)) h (unfold is_token_end in refl)
    ∙ ap (λ pieces. t ∷ pieces)
        (split-space (join (codes ", ") (u ∷ us))
          ∙ ap (push_head 32) (split-join u us k.0.whole k.1))

trim-spaced : (t : Text) → IsTag t → trim (32 ∷ t) ≡ t
trim-spaced t h = trim-cons_space 32 t (unfold is_space in refl) ∙ h.trimmed

trim_all_spaced : (ts : List Text) → All IsTag ts → map trim (spaced ts) ≡ ts
trim_all_spaced [] h = refl
trim_all_spaced (t ∷ ts) h =
    ap₂ (λ (x : Text) (xs : List Text). x ∷ xs) (trim-spaced t h.0) (trim_all_spaced ts h.1)

keep_tags : (ts : List Text) → All IsTag ts → keep_if (λ token. not (is_empty token)) ts ≡ ts
keep_tags [] h = refl
keep_tags (t ∷ ts) h = rw h.0.named (ap (◌∷◌ t) (keep_tags ts h.1))

-- Trimmed tags that are not empty and have no comma and no line end are read back from the line
-- that the editor shows for them.
pub parse_tag_input-join :
    (tags : List Text) → All IsTag tags → parse_tag_input (join (codes ", ") tags) ≡ tags
unfolding parse_tag_input
parse_tag_input-join [] h = unfold join split trim in refl
parse_tag_input-join (t ∷ ts) h =
    let pieces = split-join t ts h.0.whole h.1 in
    let trimmed : map trim (t ∷ spaced ts) ≡ t ∷ ts =
      ap₂ (λ (x : Text) (xs : List Text). x ∷ xs) h.0.trimmed (trim_all_spaced ts h.1) in
    ap (λ p. keep_if (λ token. not (is_empty token)) (map trim p)) pieces
    ∙ ap (keep_if (λ token. not (is_empty token))) trimmed
    ∙ keep_tags (t ∷ ts) h
