-- ===== src/Archive/Panel.antt =====
-- The panel of one document (components/archive/ArchiveWorkspace.tsx): its state, the effects, and the
-- answers to the requests that read. An answer is an error's message or a value. React runs the effects
-- of `[detail]` behind what a handler has set.
pub mod Requests
pub mod Work
pub mod Current
pub mod Calm
pub mod Hidden
use clip_to_doc_archive.Json.{Value, decimal}
use clip_to_doc_archive.Archive.Details.{
  DocumentFile, VersionSnapshot, DocumentDetail, EditForm, blank_form, form_of, Payload, payload_of,
}
use clip_to_doc_archive.Prelude.{
  ℕ, ◌+◌, ◌⊎◌, inl, inr, Bool, true, false, not, ◌&&◌, Option, none, some, List, [], ◌∷◌, map,
  if◌then◌else◌, nat_eq, list_eq, is_empty, contains,
}
use clip_to_doc_archive.Text.{Text}

pub data DetailTab : Type 0 where
  meta files versions history : DetailTab

pub data MetaMode : Type 0 where
  view edit : MetaMode

-- A file of the browser.
pub record Upload : Type 0 where
  pub name : Text
  pub bytes : ℕ

-- `history_items` are values that the page only shows.
pub record Panel : Type 0 where
  pub selected_doc_id : Option Text
  pub is_modal_open : Bool
  pub tab : DetailTab
  pub mode : MetaMode
  pub detail : Option DocumentDetail
  pub detail_loading : Bool
  pub detail_error : Text
  pub detail_notice : Text
  pub history_items : List Value
  pub history_loading : Bool
  pub history_error : Text
  pub history_total : ℕ
  pub file_action : Option Text
  pub add_uploads : List Upload
  pub add_input_key : ℕ
  pub replace_target : Text
  pub replace_upload : Option Upload
  pub replace_input_key : ℕ
  pub refresh_tick : ℕ
  pub doc_action_loading : Bool
  pub version_snapshot : Option VersionSnapshot
  pub version_snapshot_loading : Bool
  pub version_snapshot_error : Text
  pub selected_version_no : Option ℕ
  pub form : EditForm

abbrev pub is_some {ℓ} : {A : Type ℓ} → Option A → Bool
is_some none = false
is_some (some _) = true

abbrev pub file_ids : List DocumentFile → List Text
file_ids = map (λ file. file.id)

-- `prev && files.some((f) => f.id === prev) ? prev : files[0].id`
abbrev pub next_target : Text → List DocumentFile → Text
next_target prev [] = []
next_target prev (file ∷ others) =
    if not (is_empty prev) && contains (file_ids (file ∷ others)) prev then prev else file.id

abbrev pub files_of : Option DocumentDetail → List DocumentFile
files_of none = []
files_of (some d) = d.files

-- The first effect of `[detail]`.
unfoldable pub files_effect : Panel → Panel
files_effect p = record p {
  add_uploads = [];
  add_input_key = p.add_input_key + 1;
  replace_target = next_target p.replace_target (files_of p.detail);
  replace_upload = none;
  replace_input_key = p.replace_input_key + 1;
}

abbrev pub form_or_blank : Option DocumentDetail → EditForm
form_or_blank none = blank_form
form_or_blank (some d) = form_of d

-- The second effect of `[detail]`.
unfoldable pub form_effect : Panel → Panel
form_effect p = record p {
  form = form_or_blank p.detail;
  mode = view;
  version_snapshot = none;
  version_snapshot_error = [];
  selected_version_no = none;
}

unfoldable pub detail_effects : Panel → Panel
unfolding files_effect form_effect
detail_effects p = form_effect (files_effect p)

-- A detail that was absent and stays absent is no change.
abbrev pub effects_if_left : Option DocumentDetail → Panel → Panel
effects_if_left none p = p
effects_if_left (some d) p = detail_effects p

-- The effect of `[selectedDocId]`, up to its request; there is none without a document.
unfoldable pub select_doc : Option Text → Panel → Panel
unfolding detail_effects
select_doc none p = effects_if_left p.detail (record p {
  selected_doc_id = none;
  detail = none;
  detail_error = [];
  tab = meta;
  mode = view;
  history_items = [];
  history_error = [];
  history_total = 0;
})
select_doc (some id) p = record p {
  selected_doc_id = some id;
  tab = meta;
  detail_loading = true;
  detail_error = [];
  detail_notice = [];
}

-- `setSelectedDocId(null)` and `setDetail(null)`: the first has an effect where there was one.
unfoldable pub deselect : Panel → Panel
unfolding select_doc
deselect p =
    if is_some p.selected_doc_id
    then select_doc none p
    else effects_if_left p.detail (record p { detail = none; mode = view })

-- The answer to the request for the selected document.
unfoldable pub detail_loaded : Text ⊎ DocumentDetail → Panel → Panel
unfolding detail_effects
detail_loaded (inr d) p =
    detail_effects (record p { detail = some d; mode = view; detail_loading = false })
detail_loaded (inl message) p =
    effects_if_left p.detail
      (record p { detail_error = message; detail = none; detail_loading = false })

abbrev pub history_started : Panel → Panel
history_started p = record p { history_loading = true; history_error = [] }

unfoldable pub history_loaded : Text ⊎ (List Value × ℕ) → Panel → Panel
history_loaded (inr (items, total)) p = record p {
  history_items = items;
  history_total = total;
  history_loading = false;
}
history_loaded (inl message) p = record p {
  history_items = [];
  history_total = 0;
  history_error = message;
  history_loading = false;
}
