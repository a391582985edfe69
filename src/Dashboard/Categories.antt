-- ===== src/Dashboard/Categories.antt =====
-- The categories of tasks (`normalizeCategoryList`): trimmed, different but for their case, at most
-- 30, each cut to 80 code units.
use clip_to_doc_archive.Prelude.{
  ◌≤◌, ◌<◌, ◌≡◌, inl, inr, false, ◌||◌, List, [], ◌∷◌, arith, if◌then◌else◌, Bool-cases, nat_eq,
  list_eq, length, take, is_empty, length-take, All, All-take, contains,
}
use clip_to_doc_archive.Text.{Text, codes, trim}

module _ (lower : Text → Text) where
  unfoldable pub push_categories : (seen raw : List Text) → List Text
  unfolding trim
  push_categories seen [] = []
  push_categories seen (name ∷ names) =
      let token = trim name in
      let skipped = push_categories seen names in
      let pushed = take 80 token ∷ push_categories (lower token ∷ seen) names in
      if is_empty token || contains seen (lower token) then skipped else pushed

  unfoldable pub normalize_category_list : List Text → List Text
  unfolding push_categories
  normalize_category_list raw =
      let bounded = take 30 (push_categories [] raw) in
      if is_empty bounded then codes "할일" ∷ codes "회의" ∷ [] else bounded

  -- A category that is not empty and not too long.
  abbrev pub IsCategory : Text → Type 0
  IsCategory name = (0 < length name) × (length name ≤ 80)

  push_categories-IsCategory : (seen raw : List Text) → All IsCategory (push_categories seen raw)
  unfolding push_categories
  push_categories-IsCategory seen [] = tt
  push_categories-IsCategory seen (name ∷ names) =
      elim (Bool-cases (is_empty (trim name) || contains seen (lower (trim name)))) [
        | inl old ↦ rw old (push_categories-IsCategory seen names)
        | inr new ↦
            let filled : is_empty (trim name) ≡ false = ground arith in
            let some' = positive (trim name) filled in
            let n = length-take 80 (trim name) in
            rw new (
              (omega (arith, n, some'), omega (arith, n)),
              push_categories-IsCategory (lower (trim name) ∷ seen) names,
            )
      ]
    where
      positive : (t : Text) → is_empty t ≡ false → 0 < length t
      positive [] h = cc
      positive (c ∷ t) h = omega arith

  -- Whatever names are given, the category list has between 1 and 30 names, none empty and none
  -- longer than 80 code units.
  normalize_category_list-IsCategory :
      (raw : List Text)
      → All IsCategory (normalize_category_list raw)
        × (0 < length (normalize_category_list raw))
        × (length (normalize_category_list raw) ≤ 30)
  unfolding normalize_category_list
  normalize_category_list-IsCategory raw =
      elim (Bool-cases (is_empty (take 30 (push_categories [] raw)))) [
        | inl blank ↦ rw blank (
          ((omega arith, omega arith), ((omega arith, omega arith), tt)),
          omega arith,
          omega arith,
        )
        | inr filled ↦ rw filled (
          All-take IsCategory 30 (push_categories [] raw) (push_categories-IsCategory [] raw),
          positive (take 30 (push_categories [] raw)) filled,
          omega (arith, length-take 30 (push_categories [] raw)),
        )
      ]
    where
      positive : (l : List Text) → is_empty l ≡ false → 0 < length l
      positive [] h = cc
      positive (c ∷ l) h = omega arith
