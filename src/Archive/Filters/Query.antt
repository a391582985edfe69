-- ===== src/Archive/Filters/Query.antt =====
-- The query of the request for the list (components/archive/ArchiveWorkspace.tsx).
use clip_to_doc_archive.Prelude.Int.{ℤ}
use clip_to_doc_archive.Json.{decimal}
use clip_to_doc_archive.Prelude.{
  ℕ, ◌+◌, Bool, true, false, not, Option, none, some, List, [], ◌∷◌, ◌++◌, if◌then◌else◌, ◌==◌,
  nat_eq, list_eq, is_empty,
}
use clip_to_doc_archive.Text.{Text, codes, trim}
use clip_to_doc_archive.Archive.Filters.{Filters}

abbrev one_if : Bool → ℕ
one_if b = if b then 1 else 0

abbrev is_some {ℓ} : {A : Type ℓ} → Option A → Bool
is_some none = false
is_some (some _) = true

unfoldable pub active_filter_count : Filters → ℕ
unfolding trim
active_filter_count f =
    one_if (not (is_empty (trim f.search_query)))
    + one_if (not (is_empty f.review_status))
    + one_if (not (is_empty f.category_filter))
    + one_if (is_some f.year_filter)
    + one_if (is_some f.month_filter)
    + one_if (not (f.sort_by == codes "event_date"))
    + one_if (not (f.sort_order == codes "desc"))

-- `if (value) params.set(name, value)`
abbrev pub param_if_filled : Text → Text → List (Text × Text)
param_if_filled name value = if is_empty value then [] else (name, value) ∷ []

-- `range` is `yearMonthRange`.
abbrev pub date_params : (ℤ → Option ℤ → Text × Text) → Option ℤ → Option ℤ → List (Text × Text)
date_params range none month = []
date_params range (some year) month =
    (codes "event_date_from", (range year month).0)
    ∷ (codes "event_date_to", (range year month).1)
    ∷ []

-- The parameters that `loadDocuments` sets.
unfoldable pub document_query : (ℤ → Option ℤ → Text × Text) → Filters → List (Text × Text)
unfolding trim
document_query range f =
    (codes "page", decimal f.page)
    ∷ (codes "size", decimal f.page_size)
    ∷ (param_if_filled (codes "q") (trim f.search_query)
        ++ (param_if_filled (codes "category_name") f.category_filter
            ++ (param_if_filled (codes "review_status") f.review_status
                ++ ((codes "sort_by", f.sort_by)
                    ∷ (codes "sort_order", f.sort_order)
                    ∷ date_params range f.year_filter f.month_filter))))
