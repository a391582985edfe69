-- ===== src/Archive/Listing/Keys.antt =====
-- The keys of the archive's list (components/archive/ArchiveWorkspace.tsx). `plain` says that no
-- modifier is held and that the event's target takes no text.
pub mod Cursor
use clip_to_doc_archive.Archive.Listing.{Listing, item_ids, is_admin}
use clip_to_doc_archive.Prelude.{
  ℕ, suc, ◌+◌, ◌-◌, min, ◌⊎◌, inl, inr, Bool, true, false, not, ◌&&◌, ◌||◌, Option, none, some,
  List, [], ◌∷◌, if◌then◌else◌, ◌==◌, nat_eq, list_eq, length, is_empty, keep_if, contains,
  get_elem?,
}
use clip_to_doc_archive.Text.{Text, codes}

pub data Key : Type 0 where
  arrow_down arrow_up enter delete other : Key

-- `items.findIndex((item) => item.id === id)`, where `none` is -1.
abbrev pub find_index : Text → List Text → Option ℕ
find_index id [] = none
find_index id (other_id ∷ ids) =
    if other_id == id
    then some 0
    else (elim (find_index id ids) [ none ↦ none | some i ↦ some (suc i) ])

-- `selectedDocId ? findIndex : -1`
abbrev pub current_index : Option Text → List Text → Option ℕ
current_index none ids = none
current_index (some id) ids = if is_empty id then none else find_index id ids

-- `Math.min(n - 1, i + 1)` and `Math.max(0, i - 1)`, from an index or from nowhere.
abbrev pub below : ℕ → Option ℕ → ℕ
below n none = 0
below n (some i) = min (n - 1) (i + 1)

abbrev pub above : ℕ → Option ℕ → ℕ
above n none = n - 1
above n (some i) = i - 1

-- `setSelectedDocId(items[i].id)`
abbrev pub select_at : ℕ → Listing → Listing
select_at i l = record l { selected_doc_id = get_elem? (item_ids l.items) i }

abbrev pub is_filled : Option Text → Bool
is_filled none = false
is_filled (some id) = not (is_empty id)

-- The document that the key asks to delete, if it is confirmed.
abbrev pub deletion : (confirmed : Bool) → Listing → Option Text
deletion confirmed l =
    if is_admin l
      && is_filled l.selected_doc_id
      && contains (item_ids l.items) (elim l.selected_doc_id [ none ↦ [] | some id ↦ id ])
      && confirmed
    then l.selected_doc_id
    else none

abbrev pub start_deletion : Option Text → Listing → Listing × Option Text
start_deletion none l = (l, none)
start_deletion (some id) l =
    (record l { bulk_loading = true; bulk_error = []; bulk_notice = [] }, some id)

abbrev pub react : (confirmed : Bool) → Key → Listing → Listing × Option Text
react confirmed arrow_down l =
    let ids = item_ids l.items in
    (select_at (below (length ids) (current_index l.selected_doc_id ids)) l, none)
react confirmed arrow_up l =
    let ids = item_ids l.items in
    (select_at (above (length ids) (current_index l.selected_doc_id ids)) l, none)
react confirmed enter l =
    (if is_filled l.selected_doc_id then record l { is_modal_open = true } else l, none)
react confirmed delete l = start_deletion (deletion confirmed l) l
react confirmed other l = (l, none)

unfoldable pub on_key_down : (plain confirmed : Bool) → Key → Listing → Listing × Option Text
on_key_down plain confirmed key l =
    if l.is_modal_open || l.docs_loading || is_empty l.items || not plain
    then (l, none)
    else react confirmed key l

-- The answer to the deletion.
unfoldable pub key_deleted : Text → Text ⊎ Unit {0} → Listing → Listing
key_deleted id (inr ok) l = record l {
  bulk_notice = codes "선택 문서 삭제가 완료되었습니다.";
  refresh_tick = l.refresh_tick + 1;
  selected_doc_id = none;
  bulk_selected = keep_if (λ other_id. not (other_id == id)) l.bulk_selected;
  bulk_loading = false;
}
key_deleted id (inl message) l = record l { bulk_error = message; bulk_loading = false }
