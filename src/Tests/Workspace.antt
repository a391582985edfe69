-- ===== src/Tests/Workspace.antt =====
-- The archive's filters, columns, saved views and form at concrete inputs.
use mathlib.Core.Option
use clip_to_doc_archive.Prelude.Int.{ℤ, pos}
use clip_to_doc_archive.Json.{Number}
use clip_to_doc_archive.Archive.Filters.{cleared}
use clip_to_doc_archive.Archive.Filters.Actions.{
  Action, category_chosen, year_chosen, month_chosen, next_pressed, column_sorted, search_typed,
  search_pressed, run,
}
use clip_to_doc_archive.Archive.Filters.Query.{document_query}
use clip_to_doc_archive.Archive.Filters.Opened.{IsSettled, run-IsSettled, cleared-IsSettled}
use clip_to_doc_archive.Archive.Filters.Refinement.{question, asked, request, query-run}
use clip_to_doc_archive.Archive.Preferences.{title, date, file, default, column_eq}
use clip_to_doc_archive.Archive.Preferences.Normalize.{IsValid}
use clip_to_doc_archive.Archive.Presets.{find_name}
use clip_to_doc_archive.Archive.Presets.Upsert.{IsKept}
use clip_to_doc_archive.Archive.Columns.{Tools, up, save_current_view_preset}
use clip_to_doc_archive.Archive.Columns.Moves.{
  IsShown, toggled, moved, change_all, change_all-IsShown,
}
use clip_to_doc_archive.Archive.Columns.Saved.{restored, shown_by, find-save_current_view}
use clip_to_doc_archive.Archive.Details.{DocumentDetail}
use clip_to_doc_archive.Archive.Details.Tags.{IsTag, parse_tag_input-join}
use clip_to_doc_archive.Archive.Documents.{parse_tag_input}
use clip_to_doc_archive.Rules.Tokens.{is_token_end}
use clip_to_doc_archive.Prelude.{
  ◌≡◌, refl, true, false, Option, none, some, List, [], ◌∷◌, nat_eq, list_eq, is_empty, All,
}
use clip_to_doc_archive.Text.{Text, codes, trim, join}

-- Texts of digits are not read.
abbrev no_number : Text → Option Number
no_number s = none

abbrev a_year : ℤ → Option ℤ → Text × Text
a_year year month = (codes "2025-01-01", codes "2025-12-31")

abbrev browsing : List Action
browsing =
    month_chosen (codes "Memos") (pos 2025) (pos 8)
    ∷ next_pressed 120
    ∷ year_chosen (codes "Memos") (pos 2025)
    ∷ search_typed (codes " notes ")
    ∷ search_pressed
    ∷ column_sorted (codes "title")
    ∷ category_chosen (codes "Mail")
    ∷ []

run-IsSettled_example : IsSettled (run no_number cleared browsing)
run-IsSettled_example =
    run-IsSettled no_number browsing cleared (refl, (tt, (refl, (tt, (tt, (refl, (refl, tt)))))))
      cleared-IsSettled

query-run_example :
    document_query a_year (run no_number cleared browsing)
    ≡ request a_year (asked no_number (question cleared) browsing)
query-run_example = query-run no_number a_year cleared browsing

two_columns-IsShown : IsShown (title ∷ file ∷ [])
two_columns-IsShown = record { distinct = (refl, (refl, tt)); titled = refl }

change_all-IsShown_example :
    IsShown (
      change_all (title ∷ file ∷ []) (toggled date true ∷ moved file up ∷ toggled title false ∷ []))
change_all-IsShown_example =
    change_all-IsShown (toggled date true ∷ moved file up ∷ toggled title false ∷ [])
      (title ∷ file ∷ []) two_columns-IsShown

abbrev tools : Tools
tools = record {
  density = default;
  visible_columns = title ∷ file ∷ [];
  view_presets = [];
  view_preset_name = codes " Mine ";
  bulk_error = [];
  bulk_notice = [];
  storage = none;
}

tools-IsValid : IsValid tools.visible_columns
tools-IsValid = record { distinct = (refl, (refl, tt)); titled = refl; current = cc }

no_views-IsKept : IsKept tools.view_presets
no_views-IsKept = record { ids = tt; names = tt }

tools-named : is_empty (trim tools.view_preset_name) ≡ false
unfolding trim
tools-named = refl

find-save_current_view_example :
    Option.map (shown_by tools) (
      find_name
        (trim tools.view_preset_name)
        (save_current_view_preset (codes "2025-09-01") (codes "p1") cleared tools).view_presets)
    ≡ some (restored cleared tools)
find-save_current_view_example =
    find-save_current_view cleared tools cleared-IsSettled tools-IsValid (codes "2025-09-01")
      (codes "p1") no_views-IsKept tools-named

abbrev memo : DocumentDetail
memo = record {
  id = codes "a";
  source = codes "manual";
  source_ref = none;
  title = codes "Minutes";
  description = [];
  caption_raw = [];
  summary = [];
  category_id = none;
  category = none;
  categories = some (codes " Memos " ∷ codes "Memos" ∷ []);
  event_date = none;
  ingested_at = codes "2025-08-01";
  is_pinned = false;
  pinned_at = none;
  review_status = codes "NONE";
  review_reasons = [];
  current_version_no = 1;
  tags = [];
  files = [];
  versions = [];
}

two_tags : All IsTag (codes "mail" ∷ codes "to do" ∷ [])
unfolding trim is_token_end
two_tags = (
  record { trimmed = refl; named = refl; whole = (refl, (refl, (refl, (refl, tt)))) },
  (record { trimmed = refl; named = refl; whole = (refl, (refl, (refl, (refl, (refl, tt))))) }, tt),
)

parse_tag_input-join_example :
    parse_tag_input (join (codes ", ") (codes "mail" ∷ codes "to do" ∷ []))
    ≡ codes "mail" ∷ codes "to do" ∷ []
parse_tag_input-join_example = parse_tag_input-join (codes "mail" ∷ codes "to do" ∷ []) two_tags
