-- ===== src/Archive/Panel/Requests.antt =====
-- The handlers of one document up to their requests, and what the answers set
-- (components/archive/ArchiveWorkspace.tsx). A question of `window.confirm` is an argument.
use clip_to_doc_archive.Json.{decimal}
use clip_to_doc_archive.Archive.Details.{
  VersionSnapshot, DocumentDetail, form_of, Payload, payload_of,
}
use clip_to_doc_archive.Prelude.{
  ℕ, ◌+◌, ◌⊎◌, inl, inr, Bool, true, false, not, ◌||◌, Option, none, some, List, [], ◌++◌,
  if◌then◌else◌, nat_eq, list_eq, length, is_empty,
}
use clip_to_doc_archive.Text.{Text, codes, trim}
use clip_to_doc_archive.Archive.Panel.{Panel, Upload, deselect, detail_effects, view}

-- The requests that change the document.
pub data Request : Type 0 where
  delete_file : (document file : Text) → Request
  add_files : (document : Text) → List Upload → Request
  replace_file : (document file : Text) → Upload → Request
  save : (document : Text) → Payload → Request
  resolve : (document : Text) → Request
  delete_document : (document : Text) → Request

-- `setDetailError("")` and `setDetailNotice("")`
abbrev pub hushed : Panel → Panel
hushed p = record p { detail_error = []; detail_notice = [] }

abbrev pub refused : Text → Panel → Panel × Option Request
refused message p = (record p { detail_error = message }, none)

unfoldable pub delete_detail_file : (confirmed : Bool) → Text → Panel → Panel × Option Request
delete_detail_file confirmed file p = elim p.detail [
  | none ↦ (p, none)
  | some d ↦
      if confirmed
      then (record (hushed p) { file_action = some file }, some (delete_file d.id file))
      else (p, none)
]

unfoldable pub add_detail_files : Panel → Panel × Option Request
add_detail_files p = elim p.detail [
  | none ↦ (p, none)
  | some d ↦ if is_empty p.add_uploads then refused (codes "추가할 파일을 선택하세요.") p else (
    record (hushed p) { file_action = some (codes "__add__") },
    some (add_files d.id p.add_uploads),
  )
]

unfoldable pub replace_detail_file : Panel → Panel × Option Request
replace_detail_file p = elim p.detail [
  | none ↦ (p, none)
  | some d ↦
      if is_empty p.replace_target
      then refused (codes "교체 대상 파일을 선택하세요.") p
      else elim p.replace_upload [
        | none ↦ refused (codes "업로드할 파일을 선택하세요.") p
        | some upload ↦ (
          record (hushed p) { file_action = some p.replace_target },
          some (replace_file d.id p.replace_target upload),
        )
      ]
]

unfoldable pub save_detail_document : Panel → Panel × Option Request
unfolding trim payload_of
save_detail_document p = elim p.detail [
  | none ↦ (p, none)
  | some d ↦
      if is_empty (trim p.form.title)
      then refused (codes "제목은 비워둘 수 없습니다.") p
      else (record (hushed p) { doc_action_loading = true }, some (save d.id (payload_of p.form)))
]

unfoldable pub quick_resolve_detail_review : Panel → Panel × Option Request
quick_resolve_detail_review p = elim p.detail [
  | none ↦ (p, none)
  | some d ↦ (record (hushed p) { doc_action_loading = true }, some (resolve d.id))
]

unfoldable pub delete_detail_document : (confirmed : Bool) → Panel → Panel × Option Request
delete_detail_document confirmed p = elim p.detail [
  | none ↦ (p, none)
  | some d ↦
      if confirmed
      then (record (hushed p) { doc_action_loading = true }, some (delete_document d.id))
      else (p, none)
]

-- The `finally` block: a request about files clears the one flag, each other the other flag.
abbrev pub release : Request → Panel → Panel
release (delete_file document file) p = record p { file_action = none }
release (add_files document uploads) p = record p { file_action = none }
release (replace_file document file upload) p = record p { file_action = none }
release _ p = record p { doc_action_loading = false }

abbrev pub notice_of : Request → Text
notice_of (delete_file document file) = codes "파일 삭제가 완료되었습니다."
notice_of (add_files document uploads) =
    codes "파일 " ++ (decimal (length uploads) ++ codes "개 추가가 완료되었습니다.")
notice_of (replace_file document file upload) = codes "파일 교체가 완료되었습니다."
notice_of (save document payload) = codes "게시물 수정이 완료되었습니다."
notice_of (resolve document) = codes "검토 완료 처리되었습니다."
notice_of (delete_document document) = codes "게시물 삭제가 완료되었습니다."

-- What the service answers: an error, the document as it is now, or that it is gone.
pub data Answer : Type 0 where
  failed : Text → Answer
  updated : DocumentDetail → Answer
  gone : Answer

-- `setDetail(res)` and the rest, and then the effects. What a handler resets of the file inputs,
-- of the mode and of the form is reset by the effects again.
unfoldable pub settle : Request → Answer → Panel → Panel
unfolding detail_effects deselect
settle r (failed message) p = record (release r p) { detail_error = message }
settle r (updated d) p = detail_effects (record (release r p) {
  detail = some d;
  detail_notice = notice_of r;
  refresh_tick = p.refresh_tick + 1;
})
settle r gone p = record (deselect (record (release r p) { is_modal_open = false })) {
  detail_notice = notice_of r;
  refresh_tick = p.refresh_tick + 1;
}

abbrev pub snapshot_started : ℕ → Panel → Panel
snapshot_started version_no p = record p {
  version_snapshot_loading = true;
  version_snapshot_error = [];
  selected_version_no = some version_no;
}

unfoldable pub snapshot_loaded : Text ⊎ VersionSnapshot → Panel → Panel
snapshot_loaded (inr s) p = record p { version_snapshot = some s; version_snapshot_loading = false }
snapshot_loaded (inl message) p = record p {
  version_snapshot = none;
  version_snapshot_error = message;
  version_snapshot_loading = false;
}

-- `resetDetailMetaEditor`
unfoldable pub reset_detail_meta_editor : Panel → Panel
reset_detail_meta_editor p = elim p.detail [
  | none ↦ p
  | some d ↦ record p { form = form_of d; mode = view }
]

-- `docActionLoading || Boolean(fileActionLoadingId)`: the buttons are disabled.
abbrev pub is_busy : Panel → Bool
is_busy p =
    p.doc_action_loading || (elim p.file_action [ none ↦ false | some id ↦ not (is_empty id) ])

-- The document that a request is about.
abbrev pub document_of : Request → Text
document_of (delete_file document file) = document
document_of (add_files document uploads) = document
document_of (replace_file document file upload) = document
document_of (save document payload) = document
document_of (resolve document) = document
document_of (delete_document document) = document
