-- ===== src/Archive/Listing.antt =====
-- The list of the archive (components/archive/ArchiveWorkspace.tsx): the documents of the page, the
-- selected one, those ticked for a bulk action, and the bulk actions up to and behind their
-- requests. A question of `window.confirm` is an argument.
pub mod Chosen
pub mod Clean
pub mod Bulk
pub mod Keys
use clip_to_doc_archive.Json.{decimal}
use clip_to_doc_archive.Session.Roles.{UserRole, role_eq, reviewer, admin}
use clip_to_doc_archive.Prelude.{
  ℕ, ◌+◌, ◌⊎◌, inl, inr, Bool, true, false, not, ◌&&◌, ◌||◌, Option, none, some, List, [], ◌∷◌,
  ◌++◌, map, if◌then◌else◌, ◌==◌, nat_eq, list_eq, length, is_empty, keep_if, all, contains,
}
use clip_to_doc_archive.Text.{Text, codes}

pub record ListFile : Type 0 where
  pub id : Text
  pub original_filename : Text
  pub download_path : Option Text

-- A document as the service lists it; what may be missing is an option.
pub record ApiItem : Type 0 where
  pub id : Text
  pub title : Text
  pub description : Option Text
  pub category : Option Text
  pub event_date : Option Text
  pub ingested_at : Text
  pub is_pinned : Option Bool
  pub last_modified_at : Option Text
  pub tags : Option (List Text)
  pub file_count : Option ℕ
  pub comment_count : Option ℕ
  pub files : Option (List ListFile)
  pub review_status : Option Text
  pub review_reasons : Option (List Text)

pub record ListItem : Type 0 where
  pub id : Text
  pub title : Text
  pub description : Text
  pub category : Option Text
  pub event_date : Option Text
  pub ingested_at : Text
  pub is_pinned : Bool
  pub last_modified_at : Text
  pub tags : List Text
  pub file_count : ℕ
  pub comment_count : ℕ
  pub files : List ListFile
  pub review_status : Text
  pub review_reasons : List Text

-- `value ?? d`
abbrev pub get_or {ℓ} : {A : Type ℓ} → A → Option A → A
get_or d none = d
get_or d (some v) = v

unfoldable pub to_item : ApiItem → ListItem
to_item i = record {
  id = i.id;
  title = i.title;
  description = get_or [] i.description;
  category = i.category;
  event_date = i.event_date;
  ingested_at = i.ingested_at;
  is_pinned = get_or false i.is_pinned;
  last_modified_at = get_or i.ingested_at i.last_modified_at;
  tags = get_or [] i.tags;
  file_count = get_or 0 i.file_count;
  comment_count = get_or 0 i.comment_count;
  files = get_or [] i.files;
  review_status = get_or (codes "NONE") i.review_status;
  review_reasons = get_or [] i.review_reasons;
}

-- `user_role` is none until the user is known, and where nobody is signed in.
pub record Listing : Type 0 where
  pub items : List ListItem
  pub total : ℕ
  pub docs_loading : Bool
  pub docs_error : Text
  pub selected_doc_id : Option Text
  pub is_modal_open : Bool
  pub bulk_selected : List Text
  pub bulk_loading : Bool
  pub bulk_error : Text
  pub bulk_notice : Text
  pub refresh_tick : ℕ
  pub user_role : Option UserRole

abbrev pub item_ids : List ListItem → List Text
item_ids = map (λ item. item.id)

abbrev pub is_admin : Listing → Bool
is_admin l = elim l.user_role [ none ↦ false | some role ↦ role == admin ]

abbrev pub docs_started : Listing → Listing
docs_started l = record l { docs_loading = true; docs_error = [] }

abbrev pub selected_if_listed : List Text → Option Text → Option Text
selected_if_listed ids none = none
selected_if_listed ids (some id) = if contains ids id then some id else none

-- What the answer of `loadDocuments` sets.
unfoldable pub docs_loaded : Text ⊎ (List ApiItem × ℕ) → Listing → Listing
unfolding to_item
docs_loaded (inr (answer, total)) l =
    let rows = map to_item answer in
    record l {
      items = rows;
      total = total;
      bulk_selected = keep_if (contains (item_ids rows)) l.bulk_selected;
      selected_doc_id = selected_if_listed (item_ids rows) l.selected_doc_id;
      docs_loading = false;
    }
docs_loaded (inl message) l = record l {
  docs_error = message;
  items = [];
  total = 0;
  bulk_selected = [];
  selected_doc_id = none;
  docs_loading = false;
}

unfoldable pub toggle_doc_selection : Text → Bool → Listing → Listing
toggle_doc_selection id checked l =
    let others = keep_if (λ other. not (other == id)) l.bulk_selected in
    if checked
    then (if contains l.bulk_selected id
        then l
        else record l { bulk_selected = l.bulk_selected ++ id ∷ [] })
    else record l { bulk_selected = others }

unfoldable pub toggle_select_all_on_page : Bool → Listing → Listing
toggle_select_all_on_page checked l =
    if checked
    then record l { bulk_selected = item_ids l.items }
    else record l { bulk_selected = [] }

-- `allSelectedOnPage`
abbrev pub all_selected_on_page : Listing → Bool
all_selected_on_page l = not (is_empty l.items) && all (contains l.bulk_selected) (item_ids l.items)

-- One bulk action at a time, by an administrator, of the documents that are ticked.
unfoldable pub start_bulk : (confirmed : Bool) → Listing → Listing × List Text
start_bulk confirmed l =
    if not (is_admin l) || is_empty l.bulk_selected || l.bulk_loading
    then (l, [])
    else if confirmed
    then (record l { bulk_loading = true; bulk_error = []; bulk_notice = [] }, l.bulk_selected)
    else (l, [])

-- The loop over the settled promises, by index: the targets whose promise was fulfilled, or not.
unfoldable pub split_settled : List Text → List Bool → List Text × List Text
split_settled (id ∷ targets) (fulfilled ∷ results) =
    let rest = split_settled targets results in
    if fulfilled then (id ∷ rest.0, rest.1) else (rest.0, id ∷ rest.1)
split_settled _ _ = ([], [])

abbrev pub count_text : List Text → Text
count_text ids = decimal (length ids) ++ codes "건"

abbrev pub bulk_messages : (done part : Text) → List Text → List Text → Listing → Listing
bulk_messages done part success_ids failed_ids l =
    if is_empty failed_ids
    then record l { bulk_notice = done ++ count_text success_ids }
    else record l {
      bulk_error =
          codes "일부 실패: "
          ++ (part
              ++ (codes " "
                  ++ (count_text success_ids ++ (codes ", 실패 " ++ count_text failed_ids))));
    }

-- A reload follows where anything succeeded.
abbrev pub refresh_if : Bool → Listing → Listing
refresh_if again l = if again then record l { refresh_tick = l.refresh_tick + 1 } else l

unfoldable pub settle_needs_review : List Text → List Bool → Listing → Listing
unfolding split_settled
settle_needs_review targets results l =
    let (success_ids, failed_ids) = split_settled targets results in
    record (bulk_messages (codes "검토 필요 상태 변경 완료: ") (codes "성공") success_ids failed_ids
      (record (refresh_if (not (is_empty success_ids)) l) { bulk_selected = failed_ids })) {
        bulk_loading = false;
      }

abbrev pub is_selected_among : List Text → Option Text → Bool
is_selected_among ids none = false
is_selected_among ids (some id) = not (is_empty id) && contains ids id

-- `chosen` is the selection that the handler was made with: if this document was deleted, the page
-- lets go of whatever is selected by now.
abbrev pub close_deleted : (chosen : Option Text) → List Text → Listing → Listing
close_deleted chosen success_ids l =
    if is_selected_among success_ids chosen
    then record l { selected_doc_id = none; is_modal_open = false }
    else l

unfoldable pub settle_deleted : (chosen : Option Text) → List Text → List Bool → Listing → Listing
unfolding split_settled
settle_deleted chosen targets results l =
    let (success_ids, failed_ids) = split_settled targets results in
    record (bulk_messages (codes "게시물 삭제 완료: ") (codes "삭제") success_ids failed_ids
      (record (refresh_if (not (is_empty success_ids)) (close_deleted chosen success_ids l)) {
        bulk_selected = failed_ids;
      })) { bulk_loading = false }
