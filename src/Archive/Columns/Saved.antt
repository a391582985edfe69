-- ===== src/Archive/Columns/Saved.antt =====
-- A view of the archive that is saved and applied (components/archive/ArchiveWorkspace.tsx,
-- lib/archive-view-presets.ts).
use mathlib.Core.Option
use clip_to_doc_archive.Prelude.Int.{pos}
use clip_to_doc_archive.Text.Laws.{trim-IsTrimmed}
use clip_to_doc_archive.Archive.Preferences.{ColumnKey, column_eq}
use clip_to_doc_archive.Archive.Preferences.Normalize.{IsValid}
use clip_to_doc_archive.Archive.Presets.{
  ViewPreset, normalize_payload, payload_value, find_name, upsert_view_preset,
}
use clip_to_doc_archive.Archive.Presets.Load.{IsPositive, normalize-payload_value}
use clip_to_doc_archive.Archive.Presets.Upsert.{IsKept, saved, find_name-upsert}
use clip_to_doc_archive.Archive.Filters.{
  Filters, apply_payload, parse_sort_by, parse_sort_order, sort_fields, positive_or_default,
}
use clip_to_doc_archive.Archive.Filters.Opened.{IsSettled}
use clip_to_doc_archive.Archive.Filters.Refinement.{Question, question, period_of}
use clip_to_doc_archive.Archive.Columns.{
  Tools, current_view, save_current_view_preset, apply_view_preset, columns_or_default,
}
use clip_to_doc_archive.Prelude.{
  ℕ, zero, suc, ◌≤◌, ◌≡◌, refl, ap, ◌∙◌, ◌⊎◌, inl, inr, true, false, some, List, [], ◌∷◌, arith,
  Option-cases, nat_eq, list_beq_iff, list_eq, is_empty, contains,
}
use clip_to_doc_archive.Text.{Text, codes, trim}

-- The page as it is restored: from the first page on, with the words of the search in its box.
abbrev pub restored : Filters → Tools → Question × List ColumnKey
restored f t = (record (question f) { page = 1; box = f.search_query }, t.visible_columns)

-- What applying a saved view shows.
abbrev pub shown_by : Tools → ViewPreset → Question × List ColumnKey
shown_by t p = (question (apply_view_preset p t).0, (apply_view_preset p t).1.visible_columns)

sized : (n : ℕ) → 1 ≤ n → IsPositive (pos n)
sized zero h = absurd (omega arith)
sized (suc n) h = tt

size_kept : (n : ℕ) → 1 ≤ n → positive_or_default (pos n) ≡ n
size_kept zero h = absurd (omega arith)
size_kept (suc n) h = refl

order_kept : (s : Text) → (s ≡ codes "asc") ⊎ (s ≡ codes "desc") → parse_sort_order s ≡ s
unfolding parse_sort_order
order_kept s (inl e) = rw e refl
order_kept s (inr e) = rw e refl

field_kept : (s : Text) → contains sort_fields s ≡ true → parse_sort_by s ≡ s
unfolding parse_sort_by
field_kept s h = rw h refl

columns_kept : (columns : List ColumnKey) → IsValid columns → columns_or_default columns ≡ columns
columns_kept [] v = let k = v.titled in cc
columns_kept (c ∷ cs) v = refl

module _ (f : Filters) (t : Tools) (settled : IsSettled f) (valid : IsValid t.visible_columns) where
  -- A view is applied as it was saved.
  applied :
      (p : ViewPreset)
      → p.payload ≡ normalize_payload (payload_value (current_view f t))
      → shown_by t p ≡ restored f t
  unfolding apply_view_preset apply_payload
  applied p e =
      let whole =
        normalize-payload_value (current_view f t) (sized f.page_size settled.sized) valid in
      let same : p.payload ≡ current_view f t = e ∙ whole in
      rw same (λ i. (
        record {
          category = f.category_filter;
          period = period_of f.year_filter f.month_filter;
          status = settled.status i;
          words = f.search_query;
          field = field_kept f.sort_by settled.sorted i;
          order = order_kept f.sort_order settled.ordered i;
          page = 1;
          size = size_kept f.page_size settled.sized i;
          box = f.search_query;
        },
        columns_kept t.visible_columns valid i,
      ))

  saved_payload :
      (now id : Text) (presets : List ViewPreset) (name : Text)
      → (saved now id presets name (current_view f t)).payload
        ≡ normalize_payload (payload_value (current_view f t))
  saved_payload now id presets name = elim (Option-cases (find_name (trim name) presets)) [
    | inl missing ↦ rw (missing, saved) refl
    | inr (q, found) ↦ rw (found, saved) refl
  ]

  saved_presets :
      (now id : Text)
      → is_empty (trim t.view_preset_name) ≡ false
      → (save_current_view_preset now id f t).view_presets
        ≡ upsert_view_preset now id t.view_presets (trim t.view_preset_name) (current_view f t)
  unfolding save_current_view_preset
  saved_presets now id named = rw named refl

  -- With settled filters, valid columns and saved views with distinct names and identifiers: a
  -- view that is saved under a name that is not blank is found under it, and applying it shows the
  -- same question from its first page, and the same columns.
  pub find-save_current_view :
      (now id : Text)
      → IsKept t.view_presets
      → is_empty (trim t.view_preset_name) ≡ false
      → Option.map
          (shown_by t)
          (find_name (trim t.view_preset_name) (save_current_view_preset now id f t).view_presets)
        ≡ some (restored f t)
  find-save_current_view now id kept named =
      let name = trim t.view_preset_name in
      let view = saved now id t.view_presets name (current_view f t) in
      let twice : trim name ≡ name = trim-IsTrimmed t.view_preset_name in
      let found : find_name name (upsert_view_preset now id t.view_presets name (current_view f t))
          ≡ some view =
        find_name-upsert now id t.view_presets name (current_view f t) kept (rw twice named) name
        ∙ rw (twice, (list_beq_iff name name).1 refl) refl in
      ap (λ presets. Option.map (shown_by t) (find_name name presets)) (saved_presets now id named)
      ∙ ap (Option.map (shown_by t)) found
      ∙ ap some (applied view (saved_payload now id t.view_presets name))
