-- ===== src/Review.antt =====
-- The review queue (components/review/ReviewQueueManager.tsx): the list, the selection, and the
-- bulk decisions. `state` is what the page shows; around it stand the requests that are under way.
-- A `Set` is the list of its values in the order in which they were added.
pub mod Selection
pub mod Steps
pub mod Requests
use clip_to_doc_archive.Json.{decimal}
use clip_to_doc_archive.Prelude.{
  ℕ, ◌≡◌, ◌⊎◌, inl, inr, Bool, true, false, not, ◌&&◌, ◌||◌, Option, none, some, List, [], ◌∷◌,
  ◌++◌, map, if◌then◌else◌, ◌==◌, nat_eq, list_eq, is_empty, keep_if, any, contains,
}
use clip_to_doc_archive.Text.{Text, codes, trim}

pub record ReviewItem : Type 0 where
  pub document_id : Text
  pub reasons : List Text
  pub title : Text
  pub source_ref : Option Text
  pub suggested_actions : List Text

pub record ReviewState : Type 0 where
  pub items : List ReviewItem
  pub selected : List Text
  pub loading : Bool
  pub busy : Bool
  pub category_name : Text
  pub event_date : Text
  pub message : Text
  pub error : Text

pub data Update : Type 0 where
  approve : Update
  set_category : Text → Update
  set_event_date : Text → Update

-- The body of a bulk request.
pub record Request : Type 0 where
  pub document_ids : List Text
  pub update : Update

-- What the service answers to it.
pub record BulkResult : Type 0 where
  pub requested : ℕ
  pub updated : ℕ
  pub skipped : ℕ

abbrev pub document_ids : List ReviewItem → List Text
document_ids = map (λ item. item.document_id)

-- `Set.prototype.add`
abbrev pub set_add : List Text → Text → List Text
set_add set id = if contains set id then set else set ++ id ∷ []

-- `new Set(ids)`, on top of what is in the set.
abbrev pub add_all : List Text → List Text → List Text
add_all set [] = set
add_all set (id ∷ ids) = add_all (set_add set id) ids

-- The ids of the old selection that the new list still has.
abbrev pub retain : List ReviewItem → (next prev : List Text) → List Text
retain items next [] = next
retain items next (id ∷ prev) =
    retain items (if any (λ x. x.document_id == id) items then set_add next id else next) prev

abbrev pub load_begin : ReviewState → ReviewState
load_begin s = record s { loading = true; error = [] }

-- The answer to the list's request, or the message of its failure.
abbrev pub load_end : ReviewState → Text ⊎ List ReviewItem → ReviewState
load_end s (inl failure) = record s { error = failure; loading = false }
load_end s (inr items) = record s {
  items = items;
  selected = retain items [] s.selected;
  loading = false;
}

abbrev pub toggle : Text → ReviewState → ReviewState
toggle id s = record s {
  selected =
      if contains s.selected id
      then keep_if (λ x. not (x == id)) s.selected
      else set_add s.selected id;
}

abbrev pub select_all : ReviewState → ReviewState
select_all s = record s { selected = add_all [] (document_ids s.items) }

abbrev pub clear_selection : ReviewState → ReviewState
clear_selection s = record s { selected = [] }

-- `runBulk` up to its request.
abbrev pub run_bulk : Update → ReviewState → ReviewState × Option Request
run_bulk update s =
    if is_empty s.selected then (record s { error = codes "선택된 문서가 없습니다." }, none) else (
      record s { busy = true; error = []; message = [] },
      some (record { document_ids = s.selected; update = update }),
    )

abbrev pub bulk_message : Text → BulkResult → Text
bulk_message success_message result =
    success_message
    ++ (codes " (updated="
        ++ (decimal result.updated
            ++ (codes ", requested=" ++ (decimal result.requested ++ codes ")"))))

abbrev pub success_message : Update → Text
success_message approve = codes "일괄 승인 완료"
success_message (set_category _) = codes "카테고리 수정 완료"
success_message (set_event_date _) = codes "날짜 보정 완료"

-- The buttons that start a bulk decision, with the condition under which each is enabled.
abbrev pub is_enabled : Update → ReviewState → Bool
is_enabled approve s = not s.busy
is_enabled (set_category name) s =
    not (s.busy || is_empty (trim s.category_name)) && name == s.category_name
is_enabled (set_event_date date) s = not (s.busy || is_empty s.event_date) && date == s.event_date

-- The page: `loads` are the list requests under way, `true` for one that a bulk decision waits for;
-- `sent` is the bulk request under way.
pub record ReviewPage : Type 0 where
  pub state : ReviewState
  pub loads : List Bool
  pub sent : Option Request

abbrev pub start_load : Bool → ReviewPage → ReviewPage
start_load awaited p = record p { state = load_begin p.state; loads = awaited ∷ p.loads }

-- A list request returns; behind one that a bulk decision waits for stands `setBusy(false)`.
abbrev pub finish_load :
    (before : List Bool)
    → Bool
    → (after : List Bool) → Text ⊎ List ReviewItem
    → ReviewPage
    → ReviewPage
finish_load before awaited after answer p =
    let s = load_end p.state answer in
    record p {
      state = record s { busy = if awaited then false else s.busy };
      loads = before ++ after;
    }

abbrev pub launch : ReviewPage → ReviewState × Option Request → ReviewPage
launch p (s, none) = record p { state = s }
launch p (s, some request) = record p { state = s; sent = some request }

abbrev pub start_bulk : Update → ReviewPage → ReviewPage
start_bulk update p = launch p (run_bulk update p.state)

-- The bulk request fails, or succeeds and the list is loaded again.
abbrev pub finish_bulk : Request → Text ⊎ BulkResult → ReviewPage → ReviewPage
finish_bulk request (inl failure) p = record p {
  state = record p.state { error = failure; busy = false };
  sent = none;
}
finish_bulk request (inr result) p = start_load true (record p {
  state = record p.state { message = bulk_message (success_message request.update) result };
  sent = none;
})

abbrev pub empty_state : ReviewState
empty_state = record {
  items = [];
  selected = [];
  loading = false;
  busy = false;
  category_name = [];
  event_date = [];
  message = [];
  error = [];
}

-- The page is mounted: its effect loads the list.
abbrev pub mounted : ReviewPage
mounted = start_load false (record { state = empty_state; loads = []; sent = none })

-- One event, and the bulk request that it sends.
pub data Step : ReviewPage → Option Request → ReviewPage → Type 0 where
  refresh :
      (p : ReviewPage) → p.state.loading || p.state.busy ≡ false → Step p none (start_load false p)
  loaded :
      (p : ReviewPage) (before after : List Bool) (awaited : Bool) (answer : Text ⊎ List ReviewItem)
      → p.loads ≡ before ++ awaited ∷ after
      → Step p none (finish_load before awaited after answer p)
  checked :
      (p : ReviewPage) (id : Text)
      → contains (document_ids p.state.items) id ≡ true
      → Step p none (record p { state = toggle id p.state })
  all_selected : (p : ReviewPage) → Step p none (record p { state = select_all p.state })
  none_selected : (p : ReviewPage) → Step p none (record p { state = clear_selection p.state })
  typed_category :
      (p : ReviewPage) (value : Text)
      → Step p none (record p { state = record p.state { category_name = value } })
  typed_date :
      (p : ReviewPage) (value : Text)
      → Step p none (record p { state = record p.state { event_date = value } })
  bulk_started :
      (p : ReviewPage) (update : Update)
      → is_enabled update p.state ≡ true
      → Step p (run_bulk update p.state).1 (start_bulk update p)
  bulk_finished :
      (p : ReviewPage) (request : Request) (answer : Text ⊎ BulkResult)
      → p.sent ≡ some request
      → Step p none (finish_bulk request answer p)

pub data Reachable : ReviewPage → Type 0 where
  at_mount : Reachable mounted
  after_step : (p q : ReviewPage) (r : Option Request) → Reachable p → Step p r q → Reachable q
