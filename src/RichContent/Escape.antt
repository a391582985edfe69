-- ===== src/RichContent/Escape.antt =====
-- Laws of escaping a text (`escapeHtml` in lib/rich-content.ts).
use clip_to_doc_archive.RichContent.{escape_html}
use clip_to_doc_archive.Prelude.{
  subst, ℕ, zero, suc, ◌≡◌, refl, sym, ap, ◌∙◌, ◌≢◌, [], ◌∷◌, ◌++◌, arith, if◌then◌else◌, ◌==◌,
  nat_eq, list_eq, All, All-append, append_assoc,
}
use clip_to_doc_archive.Text.{Text, codes, replace_all, starts_with}

replace_all-append :
    (c : ℕ) (by s t : Text) → replace_all c by (s ++ t) ≡ replace_all c by s ++ replace_all c by t
unfolding replace_all
replace_all-append c by [] t = refl
replace_all-append c by (d ∷ s) t =
    ap (λ r. (if d == c then by else d ∷ []) ++ r) (replace_all-append c by s t)
    ∙ sym (append_assoc (if d == c then by else d ∷ []) (replace_all c by s) (replace_all c by t))

-- What one character becomes.
abbrev pub entity : ℕ → Text
entity c =
    if c == b'&'
    then codes "&amp;"
    else if c == b'<'
    then codes "&lt;"
    else if c == b'>'
    then codes "&gt;"
    else if c == b'"'
    then codes "&quot;"
    else if c == b'\''
    then codes "&#39;"
    else c ∷ []

escape_one : (c : ℕ) → escape_html (c ∷ []) ≡ entity c
unfolding escape_html
escape_one c = ground arith

escape_html-append : (s t : Text) → escape_html (s ++ t) ≡ escape_html s ++ escape_html t
unfolding escape_html
escape_html-append s t = simp replace_all-append

pub escape_html-cons : (c : ℕ) (s : Text) → escape_html (c ∷ s) ≡ entity c ++ escape_html s
escape_html-cons c s = escape_html-append (c ∷ []) s ∙ ap (λ e. e ++ escape_html s) (escape_one c)

-- The character that stands at the start of a text of HTML, and how many further code units its
-- entity takes.
abbrev pub read_entity : ℕ → Text → ℕ × ℕ
read_entity c s =
    if starts_with (c ∷ s) (codes "&amp;")
    then (b'&', 4)
    else if starts_with (c ∷ s) (codes "&lt;")
    then (b'<', 3)
    else if starts_with (c ∷ s) (codes "&gt;")
    then (b'>', 3)
    else if starts_with (c ∷ s) (codes "&quot;")
    then (b'"', 5)
    else if starts_with (c ∷ s) (codes "&#39;")
    then (b'\'', 4)
    else (c, 0)

-- What a reader of HTML sees: the five entities are read as their characters. `skip` counts the
-- code units of an entity that were read already.
abbrev pub decode_from : ℕ → Text → Text
decode_from skip [] = []
decode_from (suc skip) (c ∷ s) = decode_from skip s
decode_from zero (c ∷ s) = let (d, skip) = read_entity c s in d ∷ decode_from skip s

decode-entity : (c : ℕ) (s : Text) → decode_from 0 (entity c ++ s) ≡ c ∷ decode_from 0 s
unfolding starts_with
decode-entity c s = ground (arith)

-- Reading the five entities of an escaped text as their characters gives the text back, for every
-- text.
pub decode-escape_html : (s : Text) → decode_from 0 (escape_html s) ≡ s
decode-escape_html [] = unfold escape_html in refl
decode-escape_html (c ∷ s) =
    ap (decode_from 0) (escape_html-cons c s)
    ∙ decode-entity c (escape_html s)
    ∙ ap (◌∷◌ c) (decode-escape_html s)

-- No character that opens or closes a tag or an attribute.
abbrev pub IsInert : Text → Type 0
IsInert s = All (λ c. (c ≢ b'<') × (c ≢ b'>') × (c ≢ b'"') × (c ≢ b'\'')) s

entity-IsInert : (c : ℕ) → IsInert (entity c)
entity-IsInert c = ground arith

-- Escaped text has no angle bracket and no quotation mark, so it opens and closes neither a tag
-- nor an attribute.
escape_html-IsInert : (s : Text) → IsInert (escape_html s)
escape_html-IsInert [] = unfold escape_html in tt
escape_html-IsInert (c ∷ s) =
    subst IsInert (sym (escape_html-cons c s))
      (All-append _ (entity c) (escape_html s) (entity-IsInert c) (escape_html-IsInert s))
