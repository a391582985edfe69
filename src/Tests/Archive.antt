-- ===== src/Tests/Archive.antt =====
-- The archive list at concrete inputs.
use clip_to_doc_archive.Json.{Value, str, arr, of_list, null}
use clip_to_doc_archive.Storage.{LocalStorage}
use clip_to_doc_archive.Archive.Preferences.{
  title, date, file, compact, ListPreferences, normalize_visible_columns,
}
use clip_to_doc_archive.Archive.Preferences.Normalize.{IsValid}
use clip_to_doc_archive.Prelude.{◌≡◌, refl, true, some, [], ◌∷◌, nat_eq, list_eq}
use clip_to_doc_archive.Text.{codes}

abbrev raw_columns : Value
raw_columns =
    arr (of_list (str (codes "file") ∷ null ∷ str (codes "size") ∷ str (codes "file") ∷ []))

raw_columns_shown : normalize_visible_columns (some raw_columns) ≡ file ∷ title ∷ []
unfolding normalize_visible_columns
raw_columns_shown = refl

abbrev empty_storage : LocalStorage
empty_storage = record { entries = []; readable = true; writable = true }

abbrev two_columns : ListPreferences
two_columns = record { density = compact; visible_columns = title ∷ date ∷ [] }

two_columns-IsValid : IsValid two_columns.visible_columns
two_columns-IsValid = record { distinct = (refl, (refl, tt)); titled = refl; current = cc }
