-- ===== src/Archive/Preferences/Normalize.antt =====
-- Laws of normalising, loading and saving the preferences of the archive list (lib/archive-list-
-- preferences.ts).
use clip_to_doc_archive.Json.{Value, arr, obj, property, str, to_list, of_list}
use clip_to_doc_archive.Storage.{
  LocalStorage, parsed, nothing, thrown, read_json, read_json-write_json,
}
use clip_to_doc_archive.Archive.Preferences.{
  ColumnKey, title, column_eq, Density, ListPreferences, column_order_default,
  legacy_column_order_default, density_text, column_text, to_density, to_column_key, push_column,
  dedupe, add_title, settle, normalize_visible_columns, density_or_default,
  normalize_list_preferences, columns_value, preferences_value, preferences_of_reading,
  pref_storage_key, load_list_preferences, save_list_preferences,
}
use clip_to_doc_archive.Prelude.{
  contains_of_Distinct-append, append-nil, append_assoc, subst, ◌≡◌, refl, sym, ap, ◌∙◌, ◌≢◌, inl,
  inr, true, false, Option, none, some, List, [], ◌∷◌, ◌++◌, map, arith, Bool-cases, ◌==◌, nat_eq,
  list_beq_iff, list_eq, contains, Distinct, contains-append, Distinct-concat,
}
use clip_to_doc_archive.Text.{codes}

-- Columns that the list can show: none twice, the title among them, and not in the old order.
pub record IsValid (columns : List ColumnKey) : Type 0 where
  pub distinct : Distinct columns
  pub titled : contains columns title ≡ true
  pub current : columns ≢ legacy_column_order_default

column_order_default-IsValid : IsValid column_order_default
column_order_default-IsValid = record {
  distinct = (refl, (refl, (refl, (refl, (refl, (refl, (refl, tt)))))));
  titled = refl;
  current = cc;
}

push_column-Distinct :
    (deduped : List ColumnKey) (key : Option ColumnKey)
    → Distinct deduped
    → Distinct (push_column deduped key)
unfolding push_column
push_column-Distinct deduped none h = h
push_column-Distinct deduped (some key) h = elim (Bool-cases (contains deduped key)) [
  | inl there ↦ rw there h
  | inr new ↦ rw new (Distinct-concat deduped key h new)
]

dedupe-Distinct :
    (deduped : List ColumnKey) (input : List Value)
    → Distinct deduped
    → Distinct (dedupe deduped input)
unfolding dedupe
dedupe-Distinct deduped [] h = h
dedupe-Distinct deduped (candidate ∷ input) h =
    dedupe-Distinct (push_column deduped (to_column_key candidate)) input
      (push_column-Distinct deduped (to_column_key candidate) h)

settle-IsValid :
    (columns : List ColumnKey)
    → Distinct columns
    → contains columns title ≡ true
    → IsValid (settle columns)
unfolding settle
settle-IsValid [] d t = cc
settle-IsValid (c ∷ cs) d t = elim (Bool-cases (c ∷ cs == legacy_column_order_default)) [
  | inl old ↦ rw old column_order_default-IsValid
  | inr new ↦ rw new (record {
    distinct = d;
    titled = t;
    current = λ e. grind (arith, (list_beq_iff (c ∷ cs) legacy_column_order_default).1 e);
  })
]

add_title_lem :
    (columns : List ColumnKey)
    → Distinct columns
    → Distinct (add_title columns) × (contains (add_title columns) title ≡ true)
unfolding add_title
add_title_lem columns d = elim (Bool-cases (contains columns title)) [
  | inl there ↦ rw there (d, there)
  | inr new ↦
      rw new
        (Distinct-concat columns title d new, rw (contains-append columns (title ∷ []) title, new))
]

-- Whatever JSON is stored, or nothing, the columns of the list are distinct, have the title among
-- them, and are not in the order that the list had by default before.
pub normalize_visible_columns-IsValid :
    (input : Option Value) → IsValid (normalize_visible_columns input)
unfolding normalize_visible_columns
normalize_visible_columns-IsValid (some (arr input)) =
    let (d, t) =
      add_title_lem (dedupe [] (to_list input)) (dedupe-Distinct [] (to_list input) tt) in
    settle-IsValid (add_title (dedupe [] (to_list input))) d t
normalize_visible_columns-IsValid _ = column_order_default-IsValid

to_column_key-column_text : (c : ColumnKey) → to_column_key (str (column_text c)) ≡ some c
unfolding to_column_key
to_column_key-column_text c = ground arith

abbrev stored_columns : List ColumnKey → List Value
stored_columns columns = to_list (of_list (map (λ c. str (column_text c)) columns))

push_column_new :
    (deduped : List ColumnKey) (c : ColumnKey)
    → contains deduped c ≡ false
    → push_column deduped (to_column_key (str (column_text c))) ≡ deduped ++ c ∷ []
unfolding push_column
push_column_new deduped c new = ap (push_column deduped) (to_column_key-column_text c) ∙ rw new

-- Distinct columns that are read back are pushed one by one.
dedupe-columns :
    (deduped columns : List ColumnKey)
    → Distinct (deduped ++ columns)
    → dedupe deduped (stored_columns columns) ≡ deduped ++ columns
unfolding dedupe
dedupe-columns deduped [] h = sym (append-nil deduped)
dedupe-columns deduped (c ∷ cs) h =
    let new = contains_of_Distinct-append deduped c cs h in
    ap (λ d. dedupe d (stored_columns cs)) (push_column_new deduped c new)
    ∙ dedupe-columns (deduped ++ c ∷ []) cs
        (subst Distinct (sym (append_assoc deduped (c ∷ []) cs)) h)
    ∙ append_assoc deduped (c ∷ []) cs

settle_of_IsValid :
    (columns : List ColumnKey) → IsValid columns → settle (add_title columns) ≡ columns
unfolding settle add_title
settle_of_IsValid [] v = cc (v.titled)
settle_of_IsValid (c ∷ cs) v =
    rw v.titled (grind (arith, v.current, list_beq_iff (c ∷ cs) legacy_column_order_default))

-- Valid columns that were stored are shown as they were.
pub normalize-columns_value :
    (columns : List ColumnKey)
    → IsValid columns
    → normalize_visible_columns (some (columns_value columns)) ≡ columns
unfolding normalize_visible_columns
normalize-columns_value columns v =
    ap (λ d. settle (add_title d)) (dedupe-columns [] columns v.distinct)
    ∙ settle_of_IsValid columns v

normalize_list_preferences-IsValid :
    (v : Value) → IsValid (normalize_list_preferences v).visible_columns
unfolding normalize_list_preferences
normalize_list_preferences-IsValid (arr items) =
    normalize_visible_columns-IsValid (property (arr items) (codes "visibleColumns"))
normalize_list_preferences-IsValid (obj fields) =
    normalize_visible_columns-IsValid (property (obj fields) (codes "visibleColumns"))
normalize_list_preferences-IsValid _ = column_order_default-IsValid

to_density-density_text : (d : Density) → to_density (some (str (density_text d))) ≡ some d
unfolding to_density
to_density-density_text d = ground arith

normalize-preferences_value :
    (p : ListPreferences)
    → IsValid p.visible_columns
    → normalize_list_preferences (preferences_value p) ≡ p
unfolding normalize_list_preferences
normalize-preferences_value p v = λ i. record {
  density = density_or_default (to_density-density_text p.density i);
  visible_columns = normalize-columns_value p.visible_columns v i;
}

-- Preferences with valid columns are loaded as they were saved, where the storage can be read and
-- written.
load-save_list_preferences :
    (p : ListPreferences) (s : LocalStorage)
    → IsValid p.visible_columns
    → s.readable ≡ true
    → s.writable ≡ true
    → load_list_preferences (save_list_preferences p (some s)) ≡ p
unfolding load_list_preferences save_list_preferences
load-save_list_preferences p s v r w =
    let normal : ListPreferences = normalize_list_preferences (preferences_value p) in
    let same = normalize-preferences_value p v in
    ap preferences_of_reading
      (read_json-write_json pref_storage_key pref_storage_key (preferences_value normal) s r w)
    ∙ ap (λ q. normalize_list_preferences (preferences_value q)) same
    ∙ same

load_list_preferences-IsValid :
    (storage : Option LocalStorage) → IsValid (load_list_preferences storage).visible_columns
unfolding load_list_preferences
load_list_preferences-IsValid none = column_order_default-IsValid
load_list_preferences-IsValid (some s) =
    elim (read_json pref_storage_key s)
      as (λ r. IsValid (preferences_of_reading r).visible_columns) [
        | nothing ↦ column_order_default-IsValid
        | parsed v ↦ normalize_list_preferences-IsValid v
        | thrown ↦ column_order_default-IsValid
      ]

-- Whatever the storage holds, saving the preferences that were loaded from it and loading again
-- gives the same preferences, where the storage can be read and written.
load-save-load_list_preferences :
    (s : LocalStorage)
    → s.readable ≡ true
    → s.writable ≡ true
    → load_list_preferences (save_list_preferences (load_list_preferences (some s)) (some s))
      ≡ load_list_preferences (some s)
load-save-load_list_preferences s r w =
    load-save_list_preferences (load_list_preferences (some s)) s
      (load_list_preferences-IsValid (some s)) r w
