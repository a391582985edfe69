-- ===== src/Archive/Presets/Load.antt =====
-- Laws of loading the saved views of the archive list (lib/archive-view-presets.ts).
use mathlib.Core.Option.{some-injective}
use clip_to_doc_archive.Prelude.Int.{ℤ, pos}
use clip_to_doc_archive.Json.{Value, whole, num, str, arr, property, of_list, to_list, text_or}
use clip_to_doc_archive.Storage.{
  LocalStorage, nothing, parsed, thrown, read_json, read_json-write_json,
}
use clip_to_doc_archive.Text.Laws.{IsTrimmed, trim-IsTrimmed}
use clip_to_doc_archive.Text.Order.{text_ltb_asym, text_not-ltb_trans}
use clip_to_doc_archive.Sorting.{
  sort_by, IsOrdered, IsStrict, IsTotal, sort_by-IsOrdered, sort_by_of_IsStrict, All-sort_by,
}
use clip_to_doc_archive.Archive.Preferences.{Density, default, compact, density_text}
use clip_to_doc_archive.Archive.Preferences.Normalize.{
  IsValid, normalize_visible_columns-IsValid, normalize-columns_value,
}
use clip_to_doc_archive.Archive.Presets.{
  PresetPayload, ViewPreset, storage_key, integer_or_null, positive_or_50, compact_or_default,
  normalize_payload, payload_value, preset_value, newer_first, filled_text, option_or,
  normalize_preset, preset_of, normalize_rows, presets_of_reading, load_view_presets,
  save_view_presets, integer_value,
}
use clip_to_doc_archive.Prelude.{
  subst, ℕ, zero, suc, ◌≡◌, refl, ap, ◌∙◌, inl, inr, true, false, Option, none, some, List, [], ◌∷◌,
  map, arith, if◌then◌else◌, Bool-cases, Option-cases, nat_eq, list_eq, is_empty, All,
}
use clip_to_doc_archive.Text.{Text, codes, trim}

-- A whole number from 1 on.
abbrev pub IsPositive : ℤ → Type 0
IsPositive (pos (suc n)) = Unit
IsPositive _ = ⊥

pub record IsNormal (p : ViewPreset) : Type 0 where
  pub identified : is_empty p.id ≡ false
  pub trimmed : IsTrimmed p.name
  pub named : is_empty p.name ≡ false
  pub created : is_empty p.created_at ≡ false
  pub updated : is_empty p.updated_at ≡ false
  pub paged : IsPositive p.payload.page_size
  pub columns : IsValid p.payload.visible_columns

integer-integer_value : (o : Option ℤ) → integer_or_null (some (integer_value o)) ≡ o
integer-integer_value none = refl
integer-integer_value (some n) = refl

positive_of_IsPositive : (n : ℤ) → IsPositive n → positive_or_50 (some (num (whole n))) ≡ n
positive_of_IsPositive (pos zero) h = absurd h
positive_of_IsPositive (pos (suc n)) h = refl
positive_of_IsPositive n h = absurd h

compact-density_text : (d : Density) → compact_or_default (some (str (density_text d))) ≡ d
compact-density_text default = refl
compact-density_text compact = refl

pub normalize-payload_value :
    (q : PresetPayload)
    → IsPositive q.page_size
    → IsValid q.visible_columns
    → normalize_payload (payload_value q) ≡ q
unfolding normalize_payload
normalize-payload_value q h v = λ i. record {
  category_filter = q.category_filter;
  year_filter = integer-integer_value q.year_filter i;
  month_filter = integer-integer_value q.month_filter i;
  review_status = q.review_status;
  search_query = q.search_query;
  sort_by = q.sort_by;
  sort_order = q.sort_order;
  page_size = positive_of_IsPositive q.page_size h i;
  density = compact-density_text q.density i;
  visible_columns = normalize-columns_value q.visible_columns v i;
}

filled_text_of_filled : (s : Text) → is_empty s ≡ false → filled_text (some (str s)) ≡ some s
filled_text_of_filled [] h = cc
filled_text_of_filled (c ∷ s) h = refl

preset_of-preset_value :
    (now id : Text) (p : ViewPreset) → IsNormal p → preset_of now id (preset_value p) ≡ p
unfolding preset_of
preset_of-preset_value now id p n = λ i. record {
  id = option_or id (filled_text_of_filled p.id n.identified i);
  name = n.trimmed i;
  payload = normalize-payload_value p.payload n.paged n.columns i;
  created_at = option_or now (filled_text_of_filled p.created_at n.created i);
  updated_at =
      option_or (option_or now (filled_text_of_filled p.created_at n.created i))
        (filled_text_of_filled p.updated_at n.updated i);
}

normalize-preset_value :
    (now id : Text) (p : ViewPreset)
    → IsNormal p
    → normalize_preset now id (preset_value p) ≡ some p
unfolding normalize_preset
normalize-preset_value now id p n =
    ap (λ name. if is_empty name then none else some (preset_of now id (preset_value p))) n.trimmed
    ∙ rw n.named (ap some (preset_of-preset_value now id p n))

normalize_rows-preset_value :
    (now ids : ℕ → Text) (n : ℕ) (ps : List ViewPreset)
    → All IsNormal ps
    → normalize_rows now ids n (to_list (of_list (map preset_value ps))) ≡ ps
unfolding normalize_rows
normalize_rows-preset_value now ids n [] h = refl
normalize_rows-preset_value now ids n (p ∷ ps) h =
    rw (normalize-preset_value (now n) (ids n) p h.0, normalize_rows)
      (ap (◌∷◌ p) (normalize_rows-preset_value now ids (suc n) ps h.1))

-- Views in normal form that stand strictly newest first are loaded as they were saved, where the
-- storage can be read and written.
pub load-save_view_presets :
    (now ids : ℕ → Text) (ps : List ViewPreset) (s : LocalStorage)
    → All IsNormal ps
    → IsStrict newer_first ps
    → s.readable ≡ true
    → s.writable ≡ true
    → load_view_presets now ids (save_view_presets ps (some s)) ≡ ps
unfolding load_view_presets save_view_presets
load-save_view_presets now ids ps s h strict r w =
    ap (presets_of_reading now ids)
      (read_json-write_json storage_key storage_key (arr (of_list (map preset_value ps))) s r w)
    ∙ ap (sort_by newer_first) (normalize_rows-preset_value now ids 0 ps h)
    ∙ sort_by_of_IsStrict newer_first ps strict

newer_first-IsTotal : IsTotal newer_first
newer_first-IsTotal = record {
  chain = λ a b c h k. ground (arith, text_not-ltb_trans a.updated_at b.updated_at c.updated_at);
  either = λ a b h. ground (arith, text_ltb_asym a.updated_at b.updated_at);
}

positive_or_50-IsPositive : (o : Option Value) → IsPositive (positive_or_50 o)
positive_or_50-IsPositive (some (num (whole (pos (suc n))))) = tt
positive_or_50-IsPositive _ = tt

option_or-filled :
    (d : Text) (o : Option Value)
    → is_empty d ≡ false
    → is_empty (option_or d (filled_text o)) ≡ false
option_or-filled d (some (str [])) h = h
option_or-filled d (some (str (c ∷ s))) h = refl
option_or-filled d _ h = h

normalize_preset-IsNormal :
    (now id : Text) (v : Value) (p : ViewPreset)
    → is_empty now ≡ false
    → is_empty id ≡ false
    → normalize_preset now id v ≡ some p
    → IsNormal p
unfolding normalize_preset
normalize_preset-IsNormal now id v p h k e =
    elim (Bool-cases (is_empty (trim (text_or [] (property v (codes "name")))))) [
      | inl blank ↦ cc (rw blank at e)
      | inr named ↦ subst IsNormal (some-injective _ p (rw named at e)) (
          unfold preset_of normalize_payload in
          record {
            identified = option_or-filled id (property v (codes "id")) k;
            trimmed = trim-IsTrimmed (text_or [] (property v (codes "name")));
            named = named;
            created = option_or-filled now (property v (codes "created_at")) h;
            updated =
                option_or-filled _ (property v (codes "updated_at"))
                  (option_or-filled now (property v (codes "created_at")) h);
            paged = positive_or_50-IsPositive _;
            columns = normalize_visible_columns-IsValid _;
          })
    ]

normalize_rows-IsNormal :
    (now ids : ℕ → Text) (n : ℕ) (vs : List Value)
    → ((k : ℕ) → (is_empty (now k) ≡ false) × (is_empty (ids k) ≡ false))
    → All IsNormal (normalize_rows now ids n vs)
unfolding normalize_rows
normalize_rows-IsNormal now ids n [] h = tt
normalize_rows-IsNormal now ids n (v ∷ vs) h =
    elim (Option-cases (normalize_preset (now n) (ids n) v)) [
      | inl none' ↦ rw (none', normalize_rows) (normalize_rows-IsNormal now ids (suc n) vs h)
      | inr (p, made) ↦
          rw (made, normalize_rows)
            (
              normalize_preset-IsNormal (now n) (ids n) v p (h n).0 (h n).1 made,
              normalize_rows-IsNormal now ids (suc n) vs h,
            )
    ]

-- Whatever the storage holds, the views that are loaded are in normal form and stand newest first,
-- where the clock and the new identifiers give texts that are not empty.
load_view_presets-IsNormal :
    (now ids : ℕ → Text) (storage : Option LocalStorage)
    → ((k : ℕ) → (is_empty (now k) ≡ false) × (is_empty (ids k) ≡ false))
    → All IsNormal (load_view_presets now ids storage)
      × IsOrdered newer_first (load_view_presets now ids storage)
unfolding load_view_presets
load_view_presets-IsNormal now ids none h = (tt, tt)
load_view_presets-IsNormal now ids (some s) h =
    elim (read_json storage_key s)
      as (λ r.
        All IsNormal (presets_of_reading now ids r)
        × IsOrdered newer_first (presets_of_reading now ids r)) [
          | nothing ↦ (tt, tt)
          | parsed v ↦ rows v
          | thrown ↦ (tt, tt)
        ]
  where
    rows :
        (v : Value)
        → All IsNormal (presets_of_reading now ids (parsed v))
          × IsOrdered newer_first (presets_of_reading now ids (parsed v))
    rows (arr items) = (
      All-sort_by newer_first IsNormal _ (normalize_rows-IsNormal now ids 0 (to_list items) h),
      sort_by-IsOrdered newer_first newer_first-IsTotal _,
    )
    rows _ = (tt, tt)
