-- ===== src/Tests/Presets.antt =====
-- The saved views of the archive list at concrete inputs.
use clip_to_doc_archive.Prelude.Int.{pos}
use clip_to_doc_archive.Json.{Value, str, arr, obj, of_list, null, end, field}
use clip_to_doc_archive.Storage.{read_json, LocalStorage, json}
use clip_to_doc_archive.Sorting.{sort_from, IsStrict}
use clip_to_doc_archive.Archive.Preferences.{title, date, compact}
use clip_to_doc_archive.Archive.Preferences.Normalize.{IsValid}
use clip_to_doc_archive.Archive.Presets.{
  PresetPayload, ViewPreset, newer_first, storage_key, find_name, normalize_rows, normalize_preset,
  load_view_presets, save_view_presets, upsert_view_preset,
}
use clip_to_doc_archive.Archive.Presets.Load.{IsNormal, load-save_view_presets}
use clip_to_doc_archive.Archive.Presets.Upsert.{IsKept, saved, find_name-upsert}
use clip_to_doc_archive.Prelude.{
  ◌≡◌, refl, true, false, none, some, List, [], ◌∷◌, map, if◌then◌else◌, ◌==◌, nat_eq, list_eq,
  is_empty, All,
}
use clip_to_doc_archive.Text.{text_ltb, Text, codes, trim}

abbrev payload : PresetPayload
payload = record {
  category_filter = [];
  year_filter = some (pos 2025);
  month_filter = none;
  review_status = [];
  search_query = codes "plan";
  sort_by = codes "title";
  sort_order = codes "asc";
  page_size = pos 50;
  density = compact;
  visible_columns = title ∷ date ∷ [];
}

abbrev view : Text → Text → Text → ViewPreset
view id name updated = record {
  id = id;
  name = name;
  payload = payload;
  created_at = codes "2025-01-01";
  updated_at = updated;
}

abbrev newer : ViewPreset
newer = view (codes "b") (codes "plans") (codes "2025-03-01")

abbrev older : ViewPreset
older = view (codes "a") (codes "memos") (codes "2025-02-01")

abbrev two_views : List ViewPreset
two_views = newer ∷ older ∷ []

abbrev storage : LocalStorage
storage = record { entries = []; readable = true; writable = true }

columns-IsValid : IsValid payload.visible_columns
columns-IsValid = record { distinct = (refl, (refl, tt)); titled = refl; current = cc }

two_views-IsNormal : All IsNormal two_views
unfolding trim
two_views-IsNormal = (
  record {
    identified = refl;
    trimmed = refl;
    named = refl;
    created = refl;
    updated = refl;
    paged = tt;
    columns = columns-IsValid;
  },
  (
    record {
      identified = refl;
      trimmed = refl;
      named = refl;
      created = refl;
      updated = refl;
      paged = tt;
      columns = columns-IsValid;
    },
    tt,
  ),
)

two_views-IsStrict : IsStrict newer_first two_views
unfolding text_ltb
two_views-IsStrict = ((refl, tt), (tt, tt))

load-save_view_presets_example :
    load_view_presets
      (λ n. codes "now")
      (λ n. codes "id")
      (save_view_presets two_views (some storage))
    ≡ two_views
load-save_view_presets_example =
    load-save_view_presets (λ n. codes "now") (λ n. codes "id") two_views storage two_views-IsNormal
      two_views-IsStrict refl refl

abbrev rows : Value
rows = arr (
    of_list (
      obj (field (codes "name") (str (codes " a ")) end)
      ∷ null
      ∷ obj (
          field (codes "name") (str (codes "b"))
            (field (codes "updated_at") (str (codes "2030")) end))
      ∷ []))

abbrev filled_storage : LocalStorage
filled_storage = record storage { entries = (storage_key, json rows) ∷ [] }

loaded_names :
    map
      (λ p. p.name)
      (load_view_presets (λ n. codes "2026") (λ n. codes "id") (some filled_storage))
    ≡ codes "b" ∷ codes "a" ∷ []
unfolding load_view_presets text_ltb read_json sort_from normalize_rows normalize_preset trim
loaded_names = refl

two_views-IsKept : IsKept two_views
two_views-IsKept = record { ids = ((refl, tt), (tt, tt)); names = ((refl, tt), (tt, tt)) }

named : is_empty (trim (codes " memos ")) ≡ false
unfolding trim
named = refl

find_name-upsert_example :
    find_name
      (codes "memos")
      (upsert_view_preset (codes "2025-09-01") (codes "c") two_views (codes " memos ") payload)
    ≡ (if trim (codes " memos ") == codes "memos"
        then some (saved (codes "2025-09-01") (codes "c") two_views (codes " memos ") payload)
        else find_name (codes "memos") two_views)
find_name-upsert_example =
    find_name-upsert (codes "2025-09-01") (codes "c") two_views (codes " memos ") payload
      two_views-IsKept named (codes "memos")
