-- ===== src/Archive/Panel/Work.antt =====
-- The panel of one document over time (components/archive/ArchiveWorkspace.tsx): what the user can
-- press, and the answers as they come. A request is under way in `sent`, and `load` is the last
-- request for a document whose effect was not cleaned up.
pub mod Flags
pub mod Busy
pub mod Targets
use clip_to_doc_archive.Archive.Details.{DocumentDetail, EditForm}
use clip_to_doc_archive.Archive.Panel.{
  Panel, DetailTab, meta, files, versions, history, MetaMode, view, edit, Upload, select_doc,
  detail_loaded, files_of, file_ids, is_some,
}
use clip_to_doc_archive.Archive.Panel.Requests.{
  Request, Answer, delete_detail_file, add_detail_files, replace_detail_file, save_detail_document,
  quick_resolve_detail_review, delete_detail_document, settle, reset_detail_meta_editor, is_busy,
  gone, failed, updated, delete_document, delete_file, add_files, replace_file, save, resolve,
}
use clip_to_doc_archive.Archive.Details.{blank_form}
use clip_to_doc_archive.Prelude.{
  ◌≡◌, ◌⊎◌, Bool, true, false, not, ◌&&◌, Option, none, some, List, [], ◌∷◌, if◌then◌else◌, ◌==◌,
  nat_eq, list_eq, is_empty, contains,
}
use clip_to_doc_archive.Text.{Text, codes}

pub record Work : Type 0 where
  pub panel : Panel
  pub sent : Option Request
  pub load : Option Text
  pub can_resolve : Bool

pub data Event : Type 0 where
  chosen : Text → Event
  moved : Text → Event
  opened : Event
  dropped : Event
  closed : Event
  tab_pressed : DetailTab → Event
  loaded : Text ⊎ DocumentDetail → Event
  answered : Answer → Event
  edit_pressed : Event
  reset_pressed : Event
  typed : EditForm → Event
  uploads_chosen : List Upload → Event
  target_chosen : Text → Event
  upload_chosen : Option Upload → Event
  delete_file_pressed : (confirmed : Bool) → Text → Event
  add_pressed : Event
  replace_pressed : Event
  save_pressed : Event
  resolve_pressed : Event
  delete_pressed : (confirmed : Bool) → Event

abbrev pub with_panel : Panel → Work → Work
with_panel p w = record w { panel = p }

-- A handler's new state, and its request if it sends one.
abbrev pub launch : Panel × Option Request → Work → Work
launch (p, none) w = record w { panel = p }
launch (p, some r) w = record w { panel = p; sent = some r }

abbrev pub is_view : MetaMode → Bool
is_view view = true
is_view edit = false

abbrev pub is_tab : DetailTab → DetailTab → Bool
is_tab meta meta = true
is_tab files files = true
is_tab versions versions = true
is_tab history history = true
is_tab _ _ = false

-- The document is rendered in the open window: `!detailLoading && !detailError && detail`.
abbrev pub is_shown : Panel → Bool
is_shown p = p.is_modal_open && not p.detail_loading && is_empty p.detail_error && is_some p.detail

-- `review_status === "RESOLVED" && review_reasons.length === 0`
abbrev pub is_resolved : Option DocumentDetail → Bool
is_resolved none = false
is_resolved (some d) = d.review_status == codes "RESOLVED" && is_empty d.review_reasons

-- Whether what an event needs is rendered and not disabled.
abbrev pub offers : Work → Event → Bool
offers w (moved id) = not w.panel.is_modal_open
offers w opened = not w.panel.is_modal_open
offers w (tab_pressed tab) = is_shown w.panel
offers w edit_pressed = is_shown w.panel && not (is_busy w.panel) && is_view w.panel.mode
offers w reset_pressed = is_shown w.panel && not (is_busy w.panel) && not (is_view w.panel.mode)
offers w (typed form) = is_shown w.panel && is_tab w.panel.tab meta && not (is_view w.panel.mode)
offers w (uploads_chosen uploads) = is_shown w.panel && is_tab w.panel.tab files
offers w (target_chosen id) =
    is_shown w.panel && is_tab w.panel.tab files && contains (file_ids (files_of w.panel.detail)) id
offers w (upload_chosen upload) = is_shown w.panel && is_tab w.panel.tab files
offers w (delete_file_pressed confirmed file) =
    is_shown w.panel
    && is_tab w.panel.tab files
    && not (is_busy w.panel)
    && contains (file_ids (files_of w.panel.detail)) file
offers w add_pressed =
    is_shown w.panel
    && is_tab w.panel.tab files
    && not (is_busy w.panel)
    && not (is_empty w.panel.add_uploads)
offers w replace_pressed =
    is_shown w.panel
    && is_tab w.panel.tab files
    && not (is_busy w.panel)
    && is_some w.panel.replace_upload
    && not (is_empty w.panel.replace_target)
offers w save_pressed = is_shown w.panel && not (is_busy w.panel) && not (is_view w.panel.mode)
offers w resolve_pressed =
    is_shown w.panel && not (is_busy w.panel) && w.can_resolve && not (is_resolved w.panel.detail)
offers w (delete_pressed confirmed) = is_shown w.panel && not (is_busy w.panel)
offers w _ = true

abbrev pub is_selected : Option Text → Text → Bool
is_selected none id = false
is_selected (some old) id = old == id

-- The same document is no new choice for the effect, and another's cleans the old one's up.
abbrev pub choose_doc : Text → Work → Work
choose_doc id w =
    if is_selected w.panel.selected_doc_id id
    then w
    else record w { panel = select_doc (some id) w.panel; load = some id }

abbrev pub open_modal : Work → Work
open_modal w = record w { panel = record w.panel { is_modal_open = true } }

abbrev pub drop_doc : Work → Work
drop_doc w =
    if is_some w.panel.selected_doc_id
    then record w { panel = select_doc none w.panel; load = none }
    else w

-- The answer to a request for a document, unless the effect was cleaned up.
abbrev pub receive : Text ⊎ DocumentDetail → Work → Work
receive answer w = elim w.load [
  | none ↦ w
  | some id ↦ record w { panel = detail_loaded answer w.panel; load = none }
]

-- Where the document is gone, its load is cleaned up.
abbrev pub load_after : Answer → Option Text → Option Text
load_after gone load = none
load_after _ load = load

abbrev pub answer_sent : Answer → Work → Work
answer_sent answer w = elim w.sent [
  | none ↦ w
  | some r ↦ record w {
    panel = settle r answer w.panel;
    sent = none;
    load = load_after answer w.load;
  }
]

unfoldable pub react : Work → Event → Work
unfolding select_doc detail_loaded settle delete_detail_file add_detail_files replace_detail_file
    save_detail_document quick_resolve_detail_review delete_detail_document reset_detail_meta_editor
react w (chosen id) = open_modal (choose_doc id w)
react w (moved id) = choose_doc id w
react w opened = if is_some w.panel.selected_doc_id then open_modal w else w
react w dropped = drop_doc w
react w closed = with_panel (record w.panel { is_modal_open = false }) w
react w (tab_pressed tab) = with_panel (record w.panel { tab = tab }) w
react w (loaded answer) = receive answer w
react w (answered answer) = answer_sent answer w
react w edit_pressed = with_panel (record w.panel { mode = edit }) w
react w reset_pressed = with_panel (reset_detail_meta_editor w.panel) w
react w (typed form) = with_panel (record w.panel { form = form }) w
react w (uploads_chosen uploads) = with_panel (record w.panel { add_uploads = uploads }) w
react w (target_chosen id) = with_panel (record w.panel { replace_target = id }) w
react w (upload_chosen upload) = with_panel (record w.panel { replace_upload = upload }) w
react w (delete_file_pressed confirmed file) = launch (delete_detail_file confirmed file w.panel) w
react w add_pressed = launch (add_detail_files w.panel) w
react w replace_pressed = launch (replace_detail_file w.panel) w
react w save_pressed = launch (save_detail_document w.panel) w
react w resolve_pressed = launch (quick_resolve_detail_review w.panel) w
react w (delete_pressed confirmed) = launch (delete_detail_document confirmed w.panel) w

unfoldable pub step : Work → Event → Work
unfolding react
step w e = if offers w e then react w e else w

unfoldable pub steps : Work → List Event → Work
unfolding step
steps w [] = w
steps w (e ∷ events) = steps (step w e) events

-- The page as it is mounted.
abbrev pub idle : Bool → Work
idle can_resolve = record {
  panel = record {
    selected_doc_id = none;
    is_modal_open = false;
    tab = meta;
    mode = view;
    detail = none;
    detail_loading = false;
    detail_error = [];
    detail_notice = [];
    history_items = [];
    history_loading = false;
    history_error = [];
    history_total = 0;
    file_action = none;
    add_uploads = [];
    add_input_key = 0;
    replace_target = [];
    replace_upload = none;
    replace_input_key = 0;
    refresh_tick = 0;
    doc_action_loading = false;
    version_snapshot = none;
    version_snapshot_loading = false;
    version_snapshot_error = [];
    selected_version_no = none;
    form = blank_form;
  };
  sent = none;
  load = none;
  can_resolve = can_resolve;
}

-- The files that the service lists have identifiers.
abbrev pub HasId : Event → Type 0
HasId (delete_file_pressed confirmed file) = is_empty file ≡ false
HasId (target_chosen file) = is_empty file ≡ false
HasId _ = Unit
