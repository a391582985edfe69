-- ===== src/Archive/Filters/Actions.antt =====
-- What the user and the router do to the filters (components/archive/ArchiveWorkspace.tsx).
use clip_to_doc_archive.Prelude.Int.{ℤ}
use clip_to_doc_archive.Json.{Number}
use clip_to_doc_archive.Archive.Presets.{PresetPayload}
use clip_to_doc_archive.Prelude.{ℕ, Option, List, [], ◌∷◌, nat_eq, list_eq}
use clip_to_doc_archive.Text.{Text}
use clip_to_doc_archive.Archive.Filters.{
  Filters, SearchParams, apply_payload, apply_search, cleared, from_search_params, next_page,
  parse_sort_by, parse_sort_order, previous_page, select_category, select_month, select_year,
  toggle_column_sort,
}

-- What the user and the router do to the filters.
pub data Action : Type 0 where
  address_changed : SearchParams → Action
  filters_cleared : Action
  preset_applied : PresetPayload → Action
  column_sorted : Text → Action
  search_typed : Text → Action
  search_pressed : Action
  category_chosen : Text → Action
  year_chosen : Text → ℤ → Action
  month_chosen : Text → ℤ → ℤ → Action
  status_chosen : Text → Action
  field_chosen : Text → Action
  order_chosen : Text → Action
  size_chosen : ℕ → Action
  previous_pressed : Action
  next_pressed : (total : ℕ) → Action

unfoldable pub act : (Text → Option Number) → Filters → Action → Filters
unfolding from_search_params apply_payload toggle_column_sort select_category select_year
    select_month next_page
act number f (address_changed get) = from_search_params number get f
act number f filters_cleared = cleared
act number f (preset_applied p) = apply_payload p
act number f (column_sorted target) = toggle_column_sort target f
act number f (search_typed s) = record f { search_input = s }
act number f search_pressed = apply_search f
act number f (category_chosen c) = select_category c f
act number f (year_chosen c y) = select_year c y f
act number f (month_chosen c y m) = select_month c y m f
act number f (status_chosen s) = record f { review_status = s; page = 1 }
act number f (field_chosen s) = record f { sort_by = parse_sort_by s; page = 1 }
act number f (order_chosen s) = record f { sort_order = parse_sort_order s; page = 1 }
act number f (size_chosen n) = record f { page_size = n; page = 1 }
act number f previous_pressed = previous_page f
act number f (next_pressed total) = next_page total f

unfoldable pub run : (Text → Option Number) → Filters → List Action → Filters
unfolding act
run number f [] = f
run number f (a ∷ actions) = run number (act number f a) actions
