-- ===== src/VirtualList/Window.antt =====
-- Laws of the window of rows (components/common/VirtualizedList.tsx).
use native.Mathlib.Nat.{div-add-mod, mod-lt}
use clip_to_doc_archive.VirtualList.{
  ListProps, div_ceil, start_index, end_index, render_rows, rows_from,
}
use clip_to_doc_archive.Prelude.{
  subst, ℕ, zero, suc, ◌+◌, ◌-◌, ◌*◌, ◌/◌, ◌≤◌, ◌<◌, ◌≡◌, ap, ◌∙◌, some, List, [], ◌∷◌, arith,
  nat_eq, list_eq, drop, get_elem?, get_elem?-drop, get_elem?-take,
}

-- A row that begins above the lower edge of the viewport and ends below the upper edge.
pub record IsVisible (p : ListProps) (scroll_top i : ℕ) : Type 0 where
  pub listed : i < p.count
  pub above_bottom : i * p.row_height < scroll_top + p.height
  pub below_top : scroll_top < (i + 1) * p.row_height

div_ceil-le : (a b : ℕ) → 0 < b → a ≤ div_ceil a b * b
div_ceil-le a b h = grind (arith, div-add-mod (a + (b - 1)) b, mod-lt (a + (b - 1)) h)

first_row : (s r i : ℕ) → 0 < r → s < (i + 1) * r → s / r ≤ i
first_row s r i h k = grind (arith, div-add-mod s r)

lt_of_mul : (i k r : ℕ) → i * r < k * r → i < k
lt_of_mul i k r h = grind arith

last_row : (s r v i h : ℕ) → 0 < r → h ≤ v * r → i * r < s + h → i ≤ s / r + v
last_row s r v i h k b l =
    let q = s / r in
    let bound : i * r < (q + 1 + v) * r = omega (arith, div-add-mod s r, mod-lt s k) in
    omega (arith, lt_of_mul i (q + 1 + v) r bound)

-- With at least one row of overscan each visible row is in the window.
pub IsVisible-window :
    (p : ListProps) (scroll_top i : ℕ)
    → 0 < p.row_height
    → 0 < p.overscan
    → IsVisible p scroll_top i
    → (start_index p scroll_top ≤ i) × (i < end_index p scroll_top)
unfolding start_index end_index
IsVisible-window p scroll_top i r o v =
    let lo = first_row scroll_top p.row_height i r v.below_top in
    let hi =
      last_row scroll_top p.row_height (div_ceil p.height p.row_height) i p.height r
        (div_ceil-le p.height p.row_height r) v.above_bottom in
    (omega (arith, lo, v.listed), omega (arith, hi, lo, v.listed))

get-rows_from :
    {A : Type 0} (p : ListProps) (index k : ℕ) (l : List A) (x : A)
    → get_elem? l k ≡ some x
    → get_elem? (rows_from p index l) k ≡ some (x, index + k, (index + k) * p.row_height)
get-rows_from p index k [] x h = cc
get-rows_from p index zero (y ∷ l) x h =
    let e : index + 0 ≡ index = omega arith in rw e (ground arith)
get-rows_from p index (suc k) (y ∷ l) x h =
    let e : index + suc k ≡ suc index + k = omega arith in
    rw e (get-rows_from p (suc index) k l x h)

-- With rows of positive height and at least one row of overscan, each item of the list that shows
-- in the viewport is among the rendered rows, with its own index and at the offset of its row.
pub render_rows-IsVisible :
    {A : Type 0} (p : ListProps) (scroll_top i : ℕ) (items : List A) (x : A)
    → 0 < p.row_height
    → 0 < p.overscan
    → IsVisible p scroll_top i
    → get_elem? items i ≡ some x
    → (k : ℕ) × (get_elem? (render_rows p scroll_top items) k ≡ some (x, i, i * p.row_height))
unfolding render_rows
render_rows-IsVisible p scroll_top i items x r o v h =
    let (lo, hi) = IsVisible-window p scroll_top i r o v in
    let start = start_index p scroll_top in
    let e : start + (i - start) ≡ i = omega arith in
    let taken =
      get_elem?-take (end_index p scroll_top - start) (i - start) (drop start items) (omega arith)
      ∙ get_elem?-drop start (i - start) items
      ∙ ap (get_elem? items) e
      ∙ h in
    (
      i - start,
      subst
          (λ j.
            get_elem? (render_rows p scroll_top items) (i - start) ≡ some (x, j, j * p.row_height))
          e (get-rows_from p start (i - start) _ x taken),
    )
