-- ===== src/Archive/Columns.antt =====
-- How the archive's list is shown (components/archive/ArchiveWorkspace.tsx): the density, the columns
-- that are chosen and moved, and the saved views that are kept, applied and deleted.
pub mod Moves
pub mod Saved
use clip_to_doc_archive.Prelude.Int.{pos}
use clip_to_doc_archive.Storage.{LocalStorage}
use clip_to_doc_archive.Archive.Preferences.{
  Density, default, compact, ColumnKey, title, column_eq, column_order_default, column_min_width,
}
use clip_to_doc_archive.Archive.Presets.{
  PresetPayload, ViewPreset, upsert_view_preset, remove_view_preset, save_view_presets,
}
use clip_to_doc_archive.Archive.Filters.{Filters, apply_payload}
use clip_to_doc_archive.Prelude.{
  ℕ, zero, suc, ◌+◌, ◌-◌, max, Bool, not, Option, none, some, List, [], ◌∷◌, ◌++◌, if◌then◌else◌,
  ◌==◌, nat_eq, list_eq, length, is_empty, keep_if, contains,
}
use clip_to_doc_archive.Text.{Text, codes, trim}

-- The state that the tools of the list change, with the browser's storage.
pub record Tools : Type 0 where
  pub density : Density
  pub visible_columns : List ColumnKey
  pub view_presets : List ViewPreset
  pub view_preset_name : Text
  pub bulk_error : Text
  pub bulk_notice : Text
  pub storage : Option LocalStorage

abbrev pub toggle_density : Density → Density
toggle_density default = compact
toggle_density compact = default

abbrev pub widths : List ColumnKey → ℕ
widths [] = 0
widths (c ∷ cs) = column_min_width c + widths cs

-- `Math.max(620, …)`, where an administrator's list has a column of ticks.
unfoldable pub table_min_width : (is_admin : Bool) → List ColumnKey → ℕ
table_min_width is_admin columns = max 620 (widths columns + (if is_admin then 34 else 0))

abbrev pub title_if_none : List ColumnKey → List ColumnKey
title_if_none [] = title ∷ []
title_if_none (c ∷ cs) = c ∷ cs

-- A column that is shown takes its place in the default order; the title stays.
unfoldable pub toggle_column_visibility : ColumnKey → Bool → List ColumnKey → List ColumnKey
toggle_column_visibility column checked prev =
    if column == title
    then prev
    else if checked
    then keep_if (contains (prev ++ column ∷ [])) column_order_default
    else title_if_none (keep_if (λ item. not (item == column)) prev)

-- `prev.indexOf(column)`, where `none` is -1.
abbrev pub index_of : ColumnKey → List ColumnKey → Option ℕ
index_of column [] = none
index_of column (c ∷ cs) =
    if c == column
    then some 0
    else (elim (index_of column cs) [ none ↦ none | some i ↦ some (suc i) ])

-- The places i and i + 1 change their columns.
abbrev pub swap_at : ℕ → List ColumnKey → List ColumnKey
swap_at zero (c ∷ d ∷ cs) = d ∷ c ∷ cs
swap_at (suc i) (c ∷ cs) = c ∷ swap_at i cs
swap_at _ cs = cs

pub data Direction : Type 0 where
  up down : Direction

abbrev pub move_from : ℕ → Direction → List ColumnKey → List ColumnKey
move_from i up prev = if i == 0 then prev else swap_at (i - 1) prev
move_from i down prev = if i == length prev - 1 then prev else swap_at i prev

abbrev pub move_if_found : Option ℕ → Direction → List ColumnKey → List ColumnKey
move_if_found none direction prev = prev
move_if_found (some i) direction prev = move_from i direction prev

unfoldable pub move_column : ColumnKey → Direction → List ColumnKey → List ColumnKey
move_column column direction prev = move_if_found (index_of column prev) direction prev

-- The view that `saveCurrentViewPreset` saves.
abbrev pub current_view : Filters → Tools → PresetPayload
current_view f t = record {
  category_filter = f.category_filter;
  year_filter = f.year_filter;
  month_filter = f.month_filter;
  review_status = f.review_status;
  search_query = f.search_query;
  sort_by = f.sort_by;
  sort_order = f.sort_order;
  page_size = pos f.page_size;
  density = t.density;
  visible_columns = t.visible_columns;
}

-- `now` and `id` are what `nowIso` and `createId` return.
unfoldable pub save_current_view_preset : (now id : Text) → Filters → Tools → Tools
unfolding trim upsert_view_preset save_view_presets
save_current_view_preset now id f t =
    let name = trim t.view_preset_name in
    let next = upsert_view_preset now id t.view_presets name (current_view f t) in
    if is_empty name then record t { bulk_error = codes "프리셋 이름을 입력하세요." } else record t {
      view_presets = next;
      storage = save_view_presets next t.storage;
      bulk_error = [];
      bulk_notice = codes "프리셋 저장 완료: " ++ name;
      view_preset_name = [];
    }

abbrev pub columns_or_default : List ColumnKey → List ColumnKey
columns_or_default [] = column_order_default
columns_or_default (c ∷ cs) = c ∷ cs

-- The filters and the tools behind `applyViewPreset`.
unfoldable pub apply_view_preset : ViewPreset → Tools → Filters × Tools
unfolding apply_payload
apply_view_preset p t = (
  apply_payload p.payload,
  record t {
    density = p.payload.density;
    visible_columns = columns_or_default p.payload.visible_columns;
    bulk_notice = codes "프리셋 적용: " ++ p.name;
    bulk_error = [];
  },
)

unfoldable pub delete_view_preset : Text → Tools → Tools
unfolding remove_view_preset save_view_presets
delete_view_preset id t =
    let next = remove_view_preset t.view_presets id in
    record t {
      view_presets = next;
      storage = save_view_presets next t.storage;
      bulk_notice = codes "프리셋 삭제 완료";
      bulk_error = [];
    }
