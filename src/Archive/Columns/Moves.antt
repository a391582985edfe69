-- ===== src/Archive/Columns/Moves.antt =====
-- The columns of the archive's list as they are chosen and moved
-- (components/archive/ArchiveWorkspace.tsx).
use clip_to_doc_archive.Archive.Preferences.{
  ColumnKey, title, column_eq, column_eq_iff, column_order_default,
}
use clip_to_doc_archive.Archive.Columns.{
  title_if_none, toggle_column_visibility, index_of, swap_at, Direction, up, down, move_from,
  move_if_found, move_column,
}
use clip_to_doc_archive.Prelude.{
  contains-keep_if, Distinct-keep_if, ℕ, zero, suc, ◌-◌, ◌≡◌, refl, ◌∙◌, inl, inr, Bool, true, not,
  Option, none, some, List, [], ◌∷◌, ◌++◌, arith, Bool-cases, ◌==◌, nat_eq, list_eq, length,
  keep_if, contains, Distinct, contains-append,
}

-- No column stands twice, and the title is shown.
pub record IsShown (columns : List ColumnKey) : Type 0 where
  pub distinct : Distinct columns
  pub titled : contains columns title ≡ true

pub data Change : Type 0 where
  toggled : ColumnKey → (checked : Bool) → Change
  moved : ColumnKey → Direction → Change

pub change : List ColumnKey → Change → List ColumnKey
unfolding toggle_column_visibility move_column
change columns (toggled column checked) = toggle_column_visibility column checked columns
change columns (moved column direction) = move_column column direction columns

pub change_all : List ColumnKey → List Change → List ColumnKey
unfolding change
change_all columns [] = columns
change_all columns (c ∷ changes) = change_all (change columns c) changes

contains-swap_at :
    (i : ℕ) (columns : List ColumnKey) (k : ColumnKey)
    → contains (swap_at i columns) k ≡ contains columns k
contains-swap_at zero [] k = refl
contains-swap_at zero (c ∷ []) k = refl
contains-swap_at zero (c ∷ d ∷ cs) k = ground arith
contains-swap_at (suc i) [] k = refl
contains-swap_at (suc i) (c ∷ cs) k = rw (contains-swap_at i cs k) refl

Distinct-swap_at :
    (i : ℕ) (columns : List ColumnKey) → Distinct columns → Distinct (swap_at i columns)
Distinct-swap_at zero [] h = h
Distinct-swap_at zero (c ∷ []) h = h
Distinct-swap_at zero (c ∷ d ∷ cs) h =
    (ground (arith, column_eq_iff c d, column_eq_iff d c), (ground arith, h.1.1))
Distinct-swap_at (suc i) [] h = h
Distinct-swap_at (suc i) (c ∷ cs) h = (contains-swap_at i cs c ∙ h.0, Distinct-swap_at i cs h.1)

swap_at-IsShown : (i : ℕ) (columns : List ColumnKey) → IsShown columns → IsShown (swap_at i columns)
swap_at-IsShown i columns h = record {
  distinct = Distinct-swap_at i columns h.distinct;
  titled = contains-swap_at i columns title ∙ h.titled;
}

move_from-IsShown :
    (i : ℕ) (direction : Direction) (columns : List ColumnKey)
    → IsShown columns
    → IsShown (move_from i direction columns)
move_from-IsShown i up columns h = elim (Bool-cases (i == 0)) [
  | inl first ↦ rw first h
  | inr later ↦ rw later (swap_at-IsShown (i - 1) columns h)
]
move_from-IsShown i down columns h = elim (Bool-cases (i == length columns - 1)) [
  | inl last ↦ rw last h
  | inr before ↦ rw before (swap_at-IsShown i columns h)
]

move_if_found-IsShown :
    (i : Option ℕ) (direction : Direction) (columns : List ColumnKey)
    → IsShown columns
    → IsShown (move_if_found i direction columns)
move_if_found-IsShown none direction columns h = h
move_if_found-IsShown (some i) direction columns h = move_from-IsShown i direction columns h

order_default-Distinct : Distinct column_order_default
order_default-Distinct = (refl, (refl, (refl, (refl, (refl, (refl, (refl, tt)))))))

-- What still has the title is not empty.
title_if_none-kept :
    (columns : List ColumnKey) → contains columns title ≡ true → title_if_none columns ≡ columns
title_if_none-kept [] h = cc
title_if_none-kept (c ∷ cs) h = refl

toggle-IsShown :
    (column : ColumnKey) (checked : Bool) (columns : List ColumnKey)
    → IsShown columns
    → IsShown (toggle_column_visibility column checked columns)
unfolding toggle_column_visibility
toggle-IsShown column checked columns h = elim (Bool-cases (column == title)) [
  | inl fixed ↦ rw fixed h
  | inr free ↦ elim (Bool-cases checked) [
    | inl shown ↦
        rw (free, shown)
          (record {
            distinct =
                Distinct-keep_if (contains (columns ++ column ∷ [])) column_order_default
                  order_default-Distinct;
            titled =
                contains-keep_if (contains (columns ++ column ∷ [])) column_order_default title
                ∙ ground (arith, contains-append columns (column ∷ []) title, h.titled);
          })
    | inr hidden ↦
        let kept : contains (keep_if (λ item. not (item == column)) columns) title ≡ true =
          contains-keep_if (λ item. not (item == column)) columns title
          ∙ ground (arith, h.titled, column_eq_iff title column, column_eq_iff column title) in
        rw (free, hidden, title_if_none-kept (keep_if (λ item. not (item == column)) columns) kept)
          (record {
            distinct = Distinct-keep_if (λ item. not (item == column)) columns h.distinct;
            titled = kept;
          })
  ]
]

change-IsShown :
    (c : Change) (columns : List ColumnKey) → IsShown columns → IsShown (change columns c)
unfolding change
change-IsShown (toggled column checked) columns h = toggle-IsShown column checked columns h
change-IsShown (moved column direction) columns h =
    unfold move_column in move_if_found-IsShown (index_of column columns) direction columns h

-- Showing, hiding and moving columns, in any order, keeps the columns distinct and the title among
-- them.
pub change_all-IsShown :
    (changes : List Change) (columns : List ColumnKey)
    → IsShown columns
    → IsShown (change_all columns changes)
unfolding change_all
change_all-IsShown [] columns h = h
change_all-IsShown (c ∷ changes) columns h =
    change_all-IsShown changes (change columns c) (change-IsShown c columns h)
