-- ===== src/MindMap.antt =====
-- The nodes that the mind map shows (components/mindmap/MindMapWorkspace.tsx).
pub mod Selection
pub mod Placement
pub mod Labels
use mathlib.Core.Option
use clip_to_doc_archive.Prelude.{
  ℕ, zero, suc, ◌-◌, min, max, Option, none, some, List, [], ◌∷◌, map, ltb, leb, if◌then◌else◌,
  ◌==◌, nat_eq, list_eq, length, take, is_empty, get_elem?,
}
use clip_to_doc_archive.Text.{Text}

-- `clamp(value, min, max)`, on whole numbers.
unfoldable pub clamp : (value lo hi : ℕ) → ℕ
clamp value lo hi = max lo (min hi value)

-- `items.filter((_, idx) => idx !== i)`
abbrev pub remove_at : {A : Type 0} → ℕ → List A → List A
remove_at i [] = []
remove_at zero (x ∷ xs) = xs
remove_at (suc i) (x ∷ xs) = x ∷ remove_at i xs

-- `[items[i], ...rest]`
abbrev pub put_first : {A : Type 0} → Option A → List A → List A
put_first none rest = rest
put_first (some x) rest = x ∷ rest

-- `rest.slice(0, max - 1)`; the end -1 leaves out the last element.
abbrev pub slice_before : {A : Type 0} → ℕ → List A → List A
slice_before zero rest = take (length rest - 1) rest
slice_before (suc n) rest = take n rest

module _ {A : Type 0} (get_key : A → Text) where
  -- `items.findIndex((item) => getKey(item) === selected)`
  find_index : Text → List A → Option ℕ
  find_index selected [] = none
  find_index selected (item ∷ items) =
      if get_key item == selected then some 0 else Option.map suc (find_index selected items)

  unfoldable pub prioritize_selected : List A → Option Text → ℕ → List A
  unfolding find_index
  prioritize_selected items selected max_count =
      if leb (length items) max_count then items else elim selected [
        | none ↦ take max_count items
        | some key ↦ if is_empty key then take max_count items else elim (find_index key items) [
          | none ↦ take max_count items
          | some i ↦
              if ltb i max_count
              then take max_count items
              else put_first (get_elem? items i) (slice_before max_count (remove_at i items))
        ]
      ]
