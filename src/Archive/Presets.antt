-- ===== src/Archive/Presets.antt =====
-- The saved views of the archive list (lib/archive-view-presets.ts). `nowIso` and `createId` are
-- arguments: for the n-th row that is loaded they return `now n` and `ids n`.
pub mod Upsert
pub mod Load
use clip_to_doc_archive.Prelude.Int.{ℤ, pos}
use clip_to_doc_archive.Json.{
  Value, Number, Fields, whole, null, bool, num, str, arr, obj, end, field, property, of_list,
  to_list, get, text_or,
}
use clip_to_doc_archive.Storage.{
  LocalStorage, nothing, parsed, thrown, read_json, write_json, Reading,
}
use clip_to_doc_archive.Sorting.{sort_by}
use clip_to_doc_archive.Archive.Preferences.{
  Density, default, compact, ColumnKey, column_order_default, normalize_visible_columns,
  columns_value, density_text,
}
use clip_to_doc_archive.Prelude.{
  ℕ, suc, Bool, true, false, not, Option, none, some, List, [], ◌∷◌, map, if◌then◌else◌, ◌==◌,
  nat_eq, list_eq, is_empty, keep_if,
}
use clip_to_doc_archive.Text.{text_ltb, Text, codes, trim}

pub record PresetPayload : Type 0 where
  pub category_filter : Text
  pub year_filter : Option ℤ
  pub month_filter : Option ℤ
  pub review_status : Text
  pub search_query : Text
  pub sort_by : Text
  pub sort_order : Text
  pub page_size : ℤ
  pub density : Density
  pub visible_columns : List ColumnKey

pub record ViewPreset : Type 0 where
  pub id : Text
  pub name : Text
  pub payload : PresetPayload
  pub created_at : Text
  pub updated_at : Text

abbrev pub storage_key : Text
storage_key = codes "archive-view-presets.v1"

-- `Number.isInteger(v) ? v : null`
abbrev pub integer_or_null : Option Value → Option ℤ
integer_or_null (some (num (whole n))) = some n
integer_or_null _ = none

-- `Number.isInteger(v) && v > 0 ? v : 50`
abbrev pub positive_or_50 : Option Value → ℤ
positive_or_50 (some (num (whole (pos (suc n))))) = pos (suc n)
positive_or_50 _ = pos 50

-- `v === "compact" ? "compact" : "default"`
abbrev pub compact_or_default : Option Value → Density
compact_or_default (some (str s)) = if s == codes "compact" then compact else default
compact_or_default _ = default

abbrev pub columns_or_default : Option Value → Value
columns_or_default (some (arr items)) = arr items
columns_or_default _ = columns_value column_order_default

unfoldable pub normalize_payload : Value → PresetPayload
normalize_payload input = record {
  category_filter = text_or [] (property input (codes "category_filter"));
  year_filter = integer_or_null (property input (codes "year_filter"));
  month_filter = integer_or_null (property input (codes "month_filter"));
  review_status = text_or [] (property input (codes "review_status"));
  search_query = text_or [] (property input (codes "search_query"));
  sort_by = text_or (codes "event_date") (property input (codes "sort_by"));
  sort_order = text_or (codes "desc") (property input (codes "sort_order"));
  page_size = positive_or_50 (property input (codes "page_size"));
  density = compact_or_default (property input (codes "density"));
  visible_columns =
      normalize_visible_columns
        (some (columns_or_default (property input (codes "visible_columns"))));
}

-- The text of a property that is a string and not empty.
abbrev pub filled_text : Option Value → Option Text
filled_text (some (str [])) = none
filled_text (some (str (c ∷ s))) = some (c ∷ s)
filled_text _ = none

abbrev pub option_or {ℓ} : {A : Type ℓ} → A → Option A → A
option_or d none = d
option_or d (some a) = a

-- `input.payload || {}`; what is no object has none of the properties.
abbrev pub payload_or_empty : Option Value → Value
payload_or_empty none = obj end
payload_or_empty (some v) = v

preset_of : (now id : Text) → Value → ViewPreset
preset_of now id input =
    let created_at = option_or now (filled_text (property input (codes "created_at"))) in
    record {
      id = option_or id (filled_text (property input (codes "id")));
      name = trim (text_or [] (property input (codes "name")));
      payload = normalize_payload (payload_or_empty (property input (codes "payload")));
      created_at = created_at;
      updated_at = option_or created_at (filled_text (property input (codes "updated_at")));
    }

-- A value with no name, and so anything but an object, is no preset.
unfoldable pub normalize_preset : (now id : Text) → Value → Option ViewPreset
unfolding preset_of normalize_payload
normalize_preset now id input =
    if is_empty (trim (text_or [] (property input (codes "name"))))
    then none
    else some (preset_of now id input)

-- `(a, b) => (a.updated_at < b.updated_at ? 1 : -1)`, where -1 puts `a` before `b`.
abbrev pub newer_first : ViewPreset → ViewPreset → Bool
newer_first a b = if text_ltb a.updated_at b.updated_at then false else true

unfoldable pub normalize_rows : (ℕ → Text) → (ℕ → Text) → ℕ → List Value → List ViewPreset
normalize_rows now ids n [] = []
normalize_rows now ids n (v ∷ vs) = elim (normalize_preset (now n) (ids n) v) [
  | none ↦ normalize_rows now ids (suc n) vs
  | some p ↦ p ∷ normalize_rows now ids (suc n) vs
]

abbrev pub presets_of_reading : (ℕ → Text) → (ℕ → Text) → Reading → List ViewPreset
presets_of_reading now ids (parsed (arr items)) =
    sort_by newer_first (normalize_rows now ids 0 (to_list items))
presets_of_reading now ids _ = []

unfoldable pub load_view_presets : (ℕ → Text) → (ℕ → Text) → Option LocalStorage → List ViewPreset
load_view_presets now ids none = []
load_view_presets now ids (some s) = presets_of_reading now ids (read_json storage_key s)

abbrev pub integer_value : Option ℤ → Value
integer_value none = null
integer_value (some n) = num (whole n)

-- A payload and a preset as the objects that `JSON.stringify` is given.
abbrev pub payload_value : PresetPayload → Value
payload_value p = obj (
    field (codes "category_filter") (str p.category_filter) (
      field (codes "year_filter") (integer_value p.year_filter) (
        field (codes "month_filter") (integer_value p.month_filter) (
          field (codes "review_status") (str p.review_status) (
            field (codes "search_query") (str p.search_query) (
              field (codes "sort_by") (str p.sort_by) (
                field (codes "sort_order") (str p.sort_order) (
                  field (codes "page_size") (num (whole p.page_size)) (
                    field (codes "density") (str (density_text p.density)) (
                      field (codes "visible_columns") (columns_value p.visible_columns)
                        end))))))))))

abbrev pub preset_value : ViewPreset → Value
preset_value p = obj (
    field (codes "id") (str p.id) (
      field (codes "name") (str p.name) (
        field (codes "payload") (payload_value p.payload) (
          field (codes "created_at") (str p.created_at)
            (field (codes "updated_at") (str p.updated_at) end)))))

unfoldable pub save_view_presets : List ViewPreset → Option LocalStorage → Option LocalStorage
save_view_presets presets none = none
save_view_presets presets (some s) =
    some (write_json storage_key (arr (of_list (map preset_value presets))) s)

-- `presets.find((preset) => preset.name === name)`
abbrev pub find_name : Text → List ViewPreset → Option ViewPreset
find_name name [] = none
find_name name (p ∷ ps) = if p.name == name then some p else find_name name ps

abbrev pub update_if : Text → PresetPayload → Text → ViewPreset → ViewPreset
update_if id payload now p =
    if p.id == id then record p { payload = payload; updated_at = now } else p

-- `upsertArchiveViewPreset`; `now` and `id` are what `nowIso` and `createId` return in this call.
unfoldable pub upsert_view_preset :
    (now id : Text) → List ViewPreset → Text → PresetPayload → List ViewPreset
unfolding normalize_payload
upsert_view_preset now id presets name payload =
    let normalized = normalize_payload (payload_value payload) in
    if is_empty (trim name) then presets else elim (find_name (trim name) presets) [
      | some existing ↦ sort_by newer_first (map (update_if existing.id normalized now) presets)
      | none ↦
          record {
            id = id;
            name = trim name;
            payload = normalized;
            created_at = now;
            updated_at = now;
          }
          ∷ presets
    ]

unfoldable pub remove_view_preset : List ViewPreset → Text → List ViewPreset
remove_view_preset presets id = keep_if (λ p. not (p.id == id)) presets
