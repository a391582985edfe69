-- ===== src/VirtualList.antt =====
-- The window of rows that a long list renders (components/common/VirtualizedList.tsx). Heights and
-- the scroll position are whole pixels, and a row has a positive height.
pub mod Window
use clip_to_doc_archive.Prelude.{ℕ, suc, ◌+◌, ◌-◌, ◌*◌, ◌/◌, min, max, List, [], ◌∷◌, slice}

pub record ListProps : Type 0 where
  pub count : ℕ
  pub row_height : ℕ
  pub height : ℕ
  pub overscan : ℕ

-- `Math.ceil(a / b)` for `b > 0`
abbrev pub div_ceil : ℕ → ℕ → ℕ
div_ceil a b = (a + (b - 1)) / b

abbrev pub viewport_count : ListProps → ℕ
viewport_count p = max 1 (div_ceil p.height p.row_height)

unfoldable pub start_index : ListProps → (scroll_top : ℕ) → ℕ
start_index p scroll_top = scroll_top / p.row_height - p.overscan

unfoldable pub end_index : ListProps → (scroll_top : ℕ) → ℕ
unfolding start_index
end_index p scroll_top = min p.count (start_index p scroll_top + viewport_count p + p.overscan * 2)

-- `renderRow(item, index, style)` for each visible item: its index and the top of its style.
abbrev pub rows_from : {A : Type 0} → ListProps → ℕ → List A → List (A × ℕ × ℕ)
rows_from p index [] = []
rows_from p index (item ∷ items) =
    (item, index, index * p.row_height) ∷ rows_from p (suc index) items

unfoldable pub render_rows : {A : Type 0} → ListProps → (scroll_top : ℕ) → List A → List (A × ℕ × ℕ)
unfolding start_index end_index
render_rows p scroll_top items =
    rows_from p (start_index p scroll_top)
      (slice (start_index p scroll_top) (end_index p scroll_top) items)
