-- ===== src/Archive/Preferences.antt =====
-- The columns and the density of the archive list (lib/archive-list-preferences.ts). An `unknown`
-- value is a `Value` that may be missing; a storage that is not there (no window) is `none`.
pub mod Normalize
use clip_to_doc_archive.Json.{
  Value, Fields, null, bool, str, arr, obj, end, field, property, of_list, to_list, get,
}
use clip_to_doc_archive.Storage.{
  LocalStorage, nothing, parsed, thrown, read_json, write_json, Reading,
}
use clip_to_doc_archive.Prelude.{
  ℕ, ◌≡◌, ◌↔◌, true, Option, none, some, List, [], ◌∷◌, ◌++◌, map, arith, nat_beq, if◌then◌else◌,
  Eq, ◌==◌, nat_eq, list_eq, is_empty, contains,
}
use clip_to_doc_archive.Text.{Text, codes}

pub data Density : Type 0 where
  default compact : Density

pub data ColumnKey : Type 0 where
  date title category tags file modified review : ColumnKey

abbrev pub rank : ColumnKey → ℕ
rank date = 0
rank title = 1
rank category = 2
rank tags = 3
rank file = 4
rank modified = 5
rank review = 6

pub column_eq_iff : (a b : ColumnKey) → (nat_beq (rank a) (rank b) ≡ true) ↔ (a ≡ b)
column_eq_iff a b = ground arith

instance abbrev pub column_eq : Eq ColumnKey
column_eq = record { beq = λ a b. nat_beq (rank a) (rank b); beq_iff = column_eq_iff }

pub record ListPreferences : Type 0 where
  pub density : Density
  pub visible_columns : List ColumnKey

abbrev pub pref_storage_key : Text
pref_storage_key = codes "archive-list-preferences.v1"

abbrev pub legacy_column_order_default : List ColumnKey
legacy_column_order_default = date ∷ title ∷ category ∷ tags ∷ file ∷ modified ∷ review ∷ []

abbrev pub column_order_default : List ColumnKey
column_order_default = date ∷ category ∷ title ∷ tags ∷ file ∷ modified ∷ review ∷ []

abbrev pub column_min_width : ColumnKey → ℕ
column_min_width date = 92
column_min_width title = 280
column_min_width category = 84
column_min_width tags = 126
column_min_width file = 75
column_min_width modified = 120
column_min_width review = 100

abbrev pub default_list_preferences : ListPreferences
default_list_preferences = record { density = default; visible_columns = column_order_default }

abbrev pub density_text : Density → Text
density_text default = codes "default"
density_text compact = codes "compact"

abbrev pub column_text : ColumnKey → Text
column_text date = codes "date"
column_text title = codes "title"
column_text category = codes "category"
column_text tags = codes "tags"
column_text file = codes "file"
column_text modified = codes "modified"
column_text review = codes "review"

-- `isArchiveDensity`, with the density that the value is.
unfoldable pub to_density : Option Value → Option Density
to_density (some (str s)) =
    if s == codes "default"
    then some default
    else if s == codes "compact"
    then some compact
    else none
to_density _ = none

-- `isArchiveColumnKey`, with the key that the value is.
unfoldable pub to_column_key : Value → Option ColumnKey
to_column_key (str s) =
    if s == codes "date"
    then some date
    else if s == codes "title"
    then some title
    else if s == codes "category"
    then some category
    else if s == codes "tags"
    then some tags
    else if s == codes "file"
    then some file
    else if s == codes "modified"
    then some modified
    else if s == codes "review"
    then some review
    else none
to_column_key _ = none

-- The loop of `normalizeArchiveVisibleColumns`; `deduped` is what was pushed so far.
push_column : List ColumnKey → Option ColumnKey → List ColumnKey
push_column deduped none = deduped
push_column deduped (some key) = if contains deduped key then deduped else deduped ++ key ∷ []

dedupe : List ColumnKey → List Value → List ColumnKey
dedupe deduped [] = deduped
dedupe deduped (candidate ∷ input) = dedupe (push_column deduped (to_column_key candidate)) input

-- The last tests of `normalizeArchiveVisibleColumns`: the old default order is replaced.
settle : List ColumnKey → List ColumnKey
settle deduped =
    if is_empty deduped
    then column_order_default
    else if deduped == legacy_column_order_default
    then column_order_default
    else deduped

-- What follows the loop: the title is always shown.
add_title : List ColumnKey → List ColumnKey
add_title deduped = if contains deduped title then deduped else deduped ++ title ∷ []

unfoldable pub normalize_visible_columns : Option Value → List ColumnKey
unfolding dedupe push_column add_title settle to_column_key
normalize_visible_columns (some (arr input)) = settle (add_title (dedupe [] (to_list input)))
normalize_visible_columns _ = column_order_default

-- `density: isArchiveDensity(v) ? v : default`
abbrev pub density_or_default : Option Density → Density
density_or_default none = default
density_or_default (some d) = d

normalize_object : Value → ListPreferences
normalize_object value = record {
  density = density_or_default (to_density (property value (codes "density")));
  visible_columns = normalize_visible_columns (property value (codes "visibleColumns"));
}

-- Objects and arrays pass `typeof input === "object"`; null does not pass `!input`.
unfoldable pub normalize_list_preferences : Value → ListPreferences
unfolding normalize_object normalize_visible_columns to_density
normalize_list_preferences (obj fields) = normalize_object (obj fields)
normalize_list_preferences (arr items) = normalize_object (arr items)
normalize_list_preferences _ = default_list_preferences

abbrev pub columns_value : List ColumnKey → Value
columns_value columns = arr (of_list (map (λ c. str (column_text c)) columns))

-- The preferences as the object that `JSON.stringify` is given.
abbrev pub preferences_value : ListPreferences → Value
preferences_value p = obj (
    field (codes "density") (str (density_text p.density))
      (field (codes "visibleColumns") (columns_value p.visible_columns) end))

abbrev pub preferences_of_reading : Reading → ListPreferences
preferences_of_reading nothing = default_list_preferences
preferences_of_reading (parsed v) = normalize_list_preferences v
preferences_of_reading thrown = default_list_preferences

unfoldable pub load_list_preferences : Option LocalStorage → ListPreferences
load_list_preferences none = default_list_preferences
load_list_preferences (some s) = preferences_of_reading (read_json pref_storage_key s)

unfoldable pub save_list_preferences : ListPreferences → Option LocalStorage → Option LocalStorage
save_list_preferences p none = none
save_list_preferences p (some s) = some (
    write_json pref_storage_key
      (preferences_value (normalize_list_preferences (preferences_value p))) s)
