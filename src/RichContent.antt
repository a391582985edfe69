-- ===== src/RichContent.antt =====
-- Text and HTML of a document's body (lib/rich-content.ts).
pub mod Escape
pub mod Normalize
use clip_to_doc_archive.Prelude.{
  ℕ, zero, suc, Bool, false, ◌&&◌, ◌||◌, Option, none, some, List, [], ◌∷◌, ◌++◌, map, ltb, leb,
  if◌then◌else◌, ◌==◌, nat_eq, list_eq, is_empty, contains,
}
use clip_to_doc_archive.Text.{Text, codes, trim, push_head, join, replace_all}

unfoldable pub escape_html : Text → Text
unfolding replace_all
escape_html value = replace_all b'\'' (codes "&#39;") (
    replace_all b'"' (codes "&quot;") (
      replace_all b'>' (codes "&gt;")
        (replace_all b'<' (codes "&lt;") (replace_all b'&' (codes "&amp;") value))))

abbrev pub is_letter : ℕ → Bool
is_letter c = (leb b'a' c && leb c b'z') || (leb b'A' c && leb c b'Z')

-- `[a-z][\s\S]*>` at the start of the text, in either case.
abbrev pub tag_rest : Text → Bool
tag_rest [] = false
tag_rest (c ∷ s) = is_letter c && contains s b'>'

-- `/<[a-z][\s\S]*>/i.test(raw)`
unfoldable pub has_tag : Text → Bool
has_tag [] = false
has_tag (c ∷ s) = (c == b'<' && tag_rest s) || has_tag s

abbrev pub newlines : ℕ → Text
newlines zero = []
newlines (suc n) = 10 ∷ newlines n

abbrev pub put_before : Text → List Text → List Text
put_before t [] = t ∷ []
put_before t (piece ∷ pieces) = (t ++ piece) ∷ pieces

-- What the line ends read so far become: two or more of them end a piece.
abbrev pub close_lines : ℕ → List Text → List Text
close_lines n pieces = if ltb n 2 then put_before (newlines n) pieces else [] ∷ pieces

split_blocks_from : ℕ → Text → List Text
split_blocks_from n [] = close_lines n ([] ∷ [])
split_blocks_from n (c ∷ s) =
    let more = split_blocks_from (suc n) s in
    let text = close_lines n (push_head c (split_blocks_from 0 s)) in if c == 10 then more else text

-- `raw.split(/\n{2,}/g)`
unfoldable pub split_blocks : Text → List Text
unfolding split_blocks_from
split_blocks s = split_blocks_from 0 s

-- `<p>${escapeHtml(block).replaceAll("\n", "<br />")}</p>`
unfoldable pub paragraph : Text → Text
unfolding escape_html
paragraph block =
    codes "<p>" ++ (replace_all 10 (codes "<br />") (escape_html block) ++ codes "</p>")

unfoldable pub normalize_rich_content_html : Option Text → Text
unfolding paragraph split_blocks has_tag trim join
normalize_rich_content_html none = codes "<p></p>"
normalize_rich_content_html (some input) =
    let raw = trim input in
    if is_empty raw
    then codes "<p></p>"
    else if has_tag raw
    then raw
    else join [] (map paragraph (split_blocks raw))
