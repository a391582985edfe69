-- ===== src/Archive/Panel/Work/Flags.antt =====
-- What keeps the two flags of a busy panel (components/archive/ArchiveWorkspace.tsx).
use clip_to_doc_archive.Archive.Details.{DocumentDetail}
use clip_to_doc_archive.Archive.Panel.{
  is_some, Panel, select_doc, detail_loaded, detail_effects, effects_if_left, deselect,
}
use clip_to_doc_archive.Archive.Panel.Requests.{
  Request, Answer, gone, failed, updated, settle, reset_detail_meta_editor, release,
}
use clip_to_doc_archive.Prelude.{
  ◌≡◌, refl, ◌⊎◌, inl, inr, false, Option, none, some, Bool-cases, Option-cases, nat_eq, list_eq,
}
use clip_to_doc_archive.Text.{Text}

abbrev pub SameFlags : Panel → Panel → Type 0
SameFlags p q = (p.doc_action_loading ≡ q.doc_action_loading) × (p.file_action ≡ q.file_action)

pub effects_if_left-flags :
    (d : Option DocumentDetail) (p : Panel) → SameFlags (effects_if_left d p) p
unfolding detail_effects
effects_if_left-flags none p = (refl, refl)
effects_if_left-flags (some d) p = (refl, refl)

pub select_doc-flags : (id : Option Text) (p : Panel) → SameFlags (select_doc id p) p
unfolding select_doc
select_doc-flags none p = effects_if_left-flags p.detail _
select_doc-flags (some id) p = (refl, refl)

pub deselect-flags : (p : Panel) → SameFlags (deselect p) p
unfolding deselect
deselect-flags p = elim (Bool-cases (is_some p.selected_doc_id)) [
  | inl full ↦ rw full (select_doc-flags none p)
  | inr blank ↦ rw blank (effects_if_left-flags p.detail _)
]

pub detail_loaded-flags : (a : Text ⊎ DocumentDetail) (p : Panel) → SameFlags (detail_loaded a p) p
unfolding detail_loaded
detail_loaded-flags (inl message) p = effects_if_left-flags p.detail _
detail_loaded-flags (inr d) p = unfold detail_effects in (refl, refl)

pub reset-flags : (p : Panel) → SameFlags (reset_detail_meta_editor p) p
unfolding reset_detail_meta_editor
reset-flags p = elim (Option-cases p.detail) [
  | inl blank ↦ rw blank (refl, refl)
  | inr (d, full) ↦ rw full (refl, refl)
]

pub settle-flags : (r : Request) (a : Answer) (p : Panel) → SameFlags (settle r a p) (release r p)
unfolding settle
settle-flags r (failed message) p = (refl, refl)
settle-flags r (updated d) p = unfold detail_effects in (refl, refl)
settle-flags r gone p = deselect-flags (record (release r p) { is_modal_open = false })
