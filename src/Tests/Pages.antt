-- ===== src/Tests/Pages.antt =====
-- Search filters, list windows, the mind map, the gallery and rich content at concrete inputs.
use clip_to_doc_archive.Search.{SearchFilters, empty_filters, needs_review, title, asc}
use clip_to_doc_archive.VirtualList.{ListProps, render_rows, start_index, end_index}
use clip_to_doc_archive.VirtualList.Window.{render_rows-IsVisible}
use clip_to_doc_archive.MindMap.{prioritize_selected}
use clip_to_doc_archive.RichContent.{escape_html, normalize_rich_content_html}
use clip_to_doc_archive.RichContent.Escape.{decode_from, decode-escape_html}
use clip_to_doc_archive.Prelude.{
  ℕ, ◌*◌, ◌≡◌, refl, some, List, [], ◌∷◌, ◌++◌, arith, nat_eq, list_eq, get_elem?,
}
use clip_to_doc_archive.Text.{Text, codes}

abbrev filters : SearchFilters
filters = record empty_filters {
  q = codes " plan ";
  review_status = needs_review;
  sort_by = title;
  sort_order = asc;
}

abbrev list_props : ListProps
list_props = record { count = 8; row_height = 10; height = 25; overscan = 1 }

abbrev ten : List ℕ
ten = 0 ∷ 1 ∷ 2 ∷ 3 ∷ 4 ∷ 5 ∷ 6 ∷ 7 ∷ []

window : (start_index list_props 35 ≡ 2) × (end_index list_props 35 ≡ 7)
unfolding start_index end_index
window = (refl, refl)

render_rows-IsVisible_example :
    (k : ℕ) × (get_elem? (render_rows list_props 35 ten) k ≡ some (5, 5, 5 * 10))
render_rows-IsVisible_example =
    render_rows-IsVisible list_props 35 5 ten 5 (omega arith) (omega arith)
      (record { listed = omega arith; above_bottom = omega arith; below_top = omega arith }) refl

abbrev nodes : List Text
nodes = codes "a" ∷ codes "b" ∷ codes "c" ∷ codes "d" ∷ []

selected_first :
    prioritize_selected (λ t. t) nodes (some (codes "d")) 2 ≡ codes "d" ∷ codes "a" ∷ []
unfolding prioritize_selected
selected_first = refl

abbrev markup : Text
markup = codes "a & b < 'c'"

decode-escape_html_example : decode_from 0 (escape_html markup) ≡ markup
decode-escape_html_example = decode-escape_html markup

abbrev two_blocks : Text
two_blocks = 10 ∷ codes "a" ++ (10 ∷ codes "<" ++ (10 ∷ 10 ∷ 10 ∷ codes "b"))

two_paragraphs : normalize_rich_content_html (some two_blocks) ≡ codes "<p>a<br />&lt;</p><p>b</p>"
unfolding normalize_rich_content_html
two_paragraphs = refl
