-- ===== src/RichContent/Normalize.antt =====
-- Laws of normalising a body (`normalizeRichContentHtml` in lib/rich-content.ts).
use clip_to_doc_archive.Text.Laws.{trim-IsTrimmed}
use clip_to_doc_archive.RichContent.{
  has_tag, close_lines, split_blocks_from, split_blocks, escape_html, paragraph,
  normalize_rich_content_html,
}
use clip_to_doc_archive.Prelude.{
  ap₂, ℕ, suc, ◌≡◌, refl, sym, ap, ◌∙◌, inl, inr, true, false, Option, none, some, List, [], ◌∷◌,
  ◌++◌, map, arith, Bool-cases, ◌==◌, nat_eq, list_eq, is_empty, append_assoc,
}
use clip_to_doc_archive.Text.{
  Text, codes, is_space, trim_start, trim_end, trim, push_head, join, replace_all,
}

-- A text that begins with `<p>` and ends with `>`.
abbrev IsFramed : Text → Type 0
IsFramed s = (middle : Text) × (s ≡ codes "<p>" ++ (middle ++ b'>' ∷ []))

trim_end-append : (s : Text) (c : ℕ) → is_space c ≡ false → trim_end (s ++ c ∷ []) ≡ s ++ c ∷ []
unfolding trim_end
trim_end-append [] c h = rw h
trim_end-append (d ∷ s) c h = rw (trim_end-append s c h) (ground (arith, end_filled s))
  where
    end_filled : (t : Text) → is_empty (t ++ c ∷ []) ≡ false
    end_filled [] = refl
    end_filled (e ∷ t) = refl

module _ (s : Text) (f : IsFramed s) where
  trim_of_IsFramed : trim s ≡ s
  unfolding trim trim_start is_space
  trim_of_IsFramed = ap trim f.1 ∙ trim_end-append (codes "<p>" ++ f.0) b'>' refl ∙ sym f.1

  has_tag_of_IsFramed : has_tag s ≡ true
  unfolding has_tag
  has_tag_of_IsFramed = ap has_tag f.1

  normalize_of_IsFramed : normalize_rich_content_html (some s) ≡ s
  unfolding normalize_rich_content_html
  normalize_of_IsFramed =
      let filled : is_empty s ≡ false = ap is_empty f.1 in
      rw (trim_of_IsFramed, filled, has_tag_of_IsFramed)

paragraph-IsFramed : (block : Text) → IsFramed (paragraph block)
unfolding paragraph
paragraph-IsFramed block = (
  replace_all 10 (codes "<br />") (escape_html block) ++ codes "</p",
  ap (λ t. codes "<p>" ++ t)
      (sym (
        append_assoc (replace_all 10 (codes "<br />") (escape_html block)) (codes "</p")
          (b'>' ∷ []))),
)

join-IsFramed :
    (block : Text) (blocks : List Text) → IsFramed (join [] (map paragraph (block ∷ blocks)))
unfolding join
join-IsFramed block [] = paragraph-IsFramed block
join-IsFramed block (next ∷ blocks) =
    let (m, e) = paragraph-IsFramed block in
    let (n, k) = join-IsFramed next blocks in
    (
      (m ++ b'>' ∷ []) ++ (codes "<p>" ++ n),
      ap₂ ◌++◌ e k
          ∙ ap (λ t. codes "<p>" ++ t)
              (sym (append_assoc (m ++ b'>' ∷ []) (codes "<p>" ++ n) (b'>' ∷ []))),
    )

close_lines-cons : (n : ℕ) (pieces : List Text) → is_empty (close_lines n pieces) ≡ false
close_lines-cons n [] = ground arith
close_lines-cons n (p ∷ ps) = ground arith

split_blocks_from-cons : (n : ℕ) (s : Text) → is_empty (split_blocks_from n s) ≡ false
unfolding split_blocks_from
split_blocks_from-cons n [] = close_lines-cons n ([] ∷ [])
split_blocks_from-cons n (c ∷ s) = elim (Bool-cases (c == 10)) [
  | inl line ↦ rw line (split_blocks_from-cons (suc n) s)
  | inr other ↦ rw other (close_lines-cons n (push_head c (split_blocks_from 0 s)))
]

join-blocks-IsFramed :
    (blocks : List Text) → is_empty blocks ≡ false → IsFramed (join [] (map paragraph blocks))
join-blocks-IsFramed [] h = cc
join-blocks-IsFramed (block ∷ blocks) h = join-IsFramed block blocks

-- Normalising a body that was normalised changes nothing, for an absent body, a blank one, plain
-- text and HTML.
normalize_rich_content_html_idem :
    (input : Option Text)
    → normalize_rich_content_html (some (normalize_rich_content_html input))
      ≡ normalize_rich_content_html input
unfolding normalize_rich_content_html
normalize_rich_content_html_idem none = normalize_of_IsFramed (codes "<p></p>") (codes "</p", refl)
normalize_rich_content_html_idem (some input) = elim (Bool-cases (is_empty (trim input))) [
  | inl blank ↦ rw blank (normalize_of_IsFramed (codes "<p></p>") (codes "</p", refl))
  | inr filled ↦ elim (Bool-cases (has_tag (trim input))) [
    | inl tagged ↦ rw (filled, tagged) (rw (trim-IsTrimmed input, filled, tagged))
    | inr plain ↦
        rw (filled, plain)
          (normalize_of_IsFramed _ (
            join-blocks-IsFramed (split_blocks (trim input))
              (unfold split_blocks in split_blocks_from-cons 0 (trim input))))
  ]
]
