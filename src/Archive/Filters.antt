-- ===== src/Archive/Filters.antt =====
-- What the archive's list asks for (components/archive/ArchiveWorkspace.tsx): the filters, their
-- handlers and the open branches of the tree. A select's value and the statuses are texts; `number` is `Number` on a text, and `none` is `NaN` or an infinity.
pub mod Actions
pub mod Query
pub mod Opened
pub mod Refinement
use clip_to_doc_archive.Prelude.Int.{ℤ, pos}
use clip_to_doc_archive.Json.{Number, whole, decimal}
use clip_to_doc_archive.Archive.Presets.{PresetPayload}
use mathlib.Core.Option
use clip_to_doc_archive.Prelude.{
  ℕ, suc, ◌+◌, ◌-◌, ◌/◌, min, max, ◌||◌, Option, none, some, List, [], ◌∷◌, map, if◌then◌else◌,
  ◌==◌, nat_eq, list_eq, is_empty, contains,
}
use clip_to_doc_archive.Text.{Text, codes}

-- `searchParams.get(name)`
abbrev pub SearchParams : Type 0
SearchParams = Text → Option Text

abbrev pub default_page_size : ℕ
default_page_size = 50

-- An integer that is greater than 0.
abbrev pub positive : Option Number → Option ℕ
positive (some (whole (pos (suc n)))) = some (suc n)
positive _ = none

unfoldable pub parse_optional_positive_int : (Text → Option Number) → Option Text → Option ℕ
parse_optional_positive_int number none = none
parse_optional_positive_int number (some value) =
    if is_empty value then none else positive (number value)

unfoldable pub parse_review_status : Text → Text
parse_review_status value =
    if value == codes "NONE" || value == codes "NEEDS_REVIEW" || value == codes "RESOLVED"
    then value
    else []

abbrev pub sort_fields : List Text
sort_fields =
    codes "event_date"
    ∷ codes "ingested_at"
    ∷ codes "created_at"
    ∷ codes "title"
    ∷ codes "last_modified_at"
    ∷ []

unfoldable pub parse_sort_by : Text → Text
parse_sort_by value = if contains sort_fields value then value else codes "event_date"

unfoldable pub parse_sort_order : Text → Text
parse_sort_order value =
    if value == codes "asc" || value == codes "desc" then value else codes "desc"

-- A text, or the empty one where there is none.
abbrev pub text_or_empty : Option Text → Text
text_or_empty none = []
text_or_empty (some s) = s

-- `text || null`
abbrev pub filled : Text → Option Text
filled s = if is_empty s then none else some s

abbrev pub option_or_1 : Option ℕ → ℕ
option_or_1 none = 1
option_or_1 (some n) = n

-- `expanded_years` is `expandedYearsByCategory[category] ?? null`.
pub record Filters : Type 0 where
  pub category_filter : Text
  pub year_filter : Option ℤ
  pub month_filter : Option ℤ
  pub review_status : Text
  pub search_input : Text
  pub search_query : Text
  pub sort_by : Text
  pub sort_order : Text
  pub page : ℕ
  pub page_size : ℕ
  pub expanded_category : Option Text
  pub expanded_years : Text → Option ℤ

abbrev pub no_years : Text → Option ℤ
no_years category = none

-- `{ ...prev, [category]: year }`
abbrev pub put_year : Text → Option ℤ → (Text → Option ℤ) → Text → Option ℤ
put_year category year prev c = if c == category then year else prev c

-- `category ? { [category]: year ?? null } : {}`
abbrev pub only_year : Text → Option ℤ → Text → Option ℤ
only_year category year = if is_empty category then no_years else put_year category year no_years

-- The effect of `[searchParams]`; the page size stays.
unfoldable pub from_search_params : (Text → Option Number) → SearchParams → Filters → Filters
unfolding parse_optional_positive_int parse_review_status parse_sort_by parse_sort_order
from_search_params number get f =
    let category = text_or_empty (get (codes "category")) in
    let year = Option.map pos (parse_optional_positive_int number (get (codes "year"))) in
    record {
      category_filter = category;
      year_filter = year;
      month_filter = Option.map pos (parse_optional_positive_int number (get (codes "month")));
      review_status = parse_review_status (text_or_empty (get (codes "review_status")));
      search_input = text_or_empty (get (codes "q"));
      search_query = text_or_empty (get (codes "q"));
      sort_by = parse_sort_by (text_or_empty (get (codes "sort_by")));
      sort_order = parse_sort_order (text_or_empty (get (codes "sort_order")));
      page = option_or_1 (parse_optional_positive_int number (get (codes "page")));
      page_size = f.page_size;
      expanded_category = filled category;
      expanded_years = only_year category year;
    }

-- The state of `clearFilters`.
abbrev pub cleared : Filters
cleared = record {
  category_filter = [];
  year_filter = none;
  month_filter = none;
  review_status = [];
  search_input = [];
  search_query = [];
  sort_by = codes "event_date";
  sort_order = codes "desc";
  page = 1;
  page_size = default_page_size;
  expanded_category = none;
  expanded_years = no_years;
}

-- `size > 0 ? size : DEFAULT_PAGE_SIZE`
abbrev pub positive_or_default : ℤ → ℕ
positive_or_default (pos (suc n)) = suc n
positive_or_default _ = default_page_size

-- What `applyViewPreset` sets of the filters.
unfoldable pub apply_payload : PresetPayload → Filters
unfolding parse_review_status parse_sort_by parse_sort_order
apply_payload p = record {
  category_filter = p.category_filter;
  year_filter = p.year_filter;
  month_filter = p.month_filter;
  review_status = parse_review_status p.review_status;
  search_input = p.search_query;
  search_query = p.search_query;
  sort_by = parse_sort_by p.sort_by;
  sort_order = parse_sort_order p.sort_order;
  page = 1;
  page_size = positive_or_default p.page_size;
  expanded_category = filled p.category_filter;
  expanded_years = only_year p.category_filter p.year_filter;
}

unfoldable pub toggle_column_sort : Text → Filters → Filters
toggle_column_sort target f =
    if f.sort_by == target
    then record f {
      sort_order = if f.sort_order == codes "desc" then codes "asc" else codes "desc";
      page = 1;
    }
    else record f { sort_by = target; sort_order = codes "desc"; page = 1 }

unfoldable pub sort_marker : Text → Filters → Text
sort_marker target f =
    if f.sort_by == target
    then (if f.sort_order == codes "desc" then codes "↓" else codes "↑")
    else codes "↕"

abbrev pub apply_search : Filters → Filters
apply_search f = record f { search_query = f.search_input; page = 1 }

unfoldable pub select_category : Text → Filters → Filters
select_category category f = record f {
  expanded_category = some category;
  expanded_years = put_year category none f.expanded_years;
  category_filter = category;
  year_filter = none;
  month_filter = none;
  page = 1;
}

unfoldable pub select_year : Text → ℤ → Filters → Filters
select_year category year f = record f {
  expanded_category = some category;
  expanded_years = put_year category (some year) f.expanded_years;
  category_filter = category;
  year_filter = some year;
  month_filter = none;
  page = 1;
}

unfoldable pub select_month : Text → ℤ → ℤ → Filters → Filters
select_month category year month f = record f {
  expanded_category = some category;
  expanded_years = put_year category (some year) f.expanded_years;
  category_filter = category;
  year_filter = some year;
  month_filter = some month;
  page = 1;
}

-- `Math.max(1, Math.ceil(total / pageSize))`
unfoldable pub total_pages : (total page_size : ℕ) → ℕ
total_pages total page_size = max 1 ((total + page_size - 1) / page_size)

abbrev pub previous_page : Filters → Filters
previous_page f = record f { page = max 1 (f.page - 1) }

unfoldable pub next_page : ℕ → Filters → Filters
unfolding total_pages
next_page total f = record f { page = min (total_pages total f.page_size) (f.page + 1) }
