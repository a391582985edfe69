-- ===== src/Archive/Panel/Work/Targets.antt =====
-- The file that a replacement goes to (components/archive/ArchiveWorkspace.tsx).
use clip_to_doc_archive.Archive.Details.{DocumentDetail, DocumentFile}
use clip_to_doc_archive.Archive.Panel.{
  is_some, Panel, Upload, select_doc, detail_loaded, detail_effects, effects_if_left, deselect,
  files_effect, form_effect, next_target, files_of, file_ids,
}
use clip_to_doc_archive.Archive.Panel.Requests.{
  Request, Answer, gone, failed, updated, delete_detail_file, add_detail_files, replace_detail_file,
  save_detail_document, quick_resolve_detail_review, delete_detail_document, settle,
  reset_detail_meta_editor, release, replace_file, delete_file, delete_document, save, add_files,
  resolve,
}
use clip_to_doc_archive.Archive.Panel.Work.{
  Work, Event, chosen, moved, opened, dropped, closed, tab_pressed, loaded, answered, edit_pressed,
  reset_pressed, typed, uploads_chosen, target_chosen, upload_chosen, delete_file_pressed,
  add_pressed, replace_pressed, save_pressed, resolve_pressed, delete_pressed, HasId, offers,
  choose_doc, drop_doc, receive, answer_sent, react, step, steps, idle, is_selected, launch,
}
use clip_to_doc_archive.Prelude.{
  ◌≡◌, refl, sym, ap, ◌∙◌, ◌⊎◌, inl, inr, Bool, true, false, not, ◌&&◌, Option, none, some, List,
  [], ◌∷◌, arith, Bool-cases, Option-cases, nat_eq, list_beq_iff, list_eq, is_empty, All, contains,
}
use clip_to_doc_archive.Text.{Text}

-- The chosen target is what the effect would choose again: one of the document's files, and
-- nothing where it has none.
abbrev pub IsTargeted : Panel → Type 0
IsTargeted p = next_target p.replace_target (files_of p.detail) ≡ p.replace_target

next_target_idem :
    (prev : Text) (fs : List DocumentFile)
    → next_target (next_target prev fs) fs ≡ next_target prev fs
next_target_idem prev [] = refl
next_target_idem prev (f ∷ fs) =
    elim (Bool-cases (not (is_empty prev) && contains (file_ids (f ∷ fs)) prev)) [
      | inl kept ↦ rw kept (rw kept refl)
      | inr first ↦
          rw first (elim (Bool-cases (not (is_empty f.id) && contains (file_ids (f ∷ fs)) f.id)) [
            | inl again ↦ rw again refl
            | inr blank ↦ rw blank refl
          ])
    ]

effects-IsTargeted : (p : Panel) → IsTargeted (detail_effects p)
unfolding detail_effects files_effect form_effect
effects-IsTargeted p = next_target_idem p.replace_target (files_of p.detail)

-- Without a document there is no target.
effects_if_left-IsTargeted :
    (d : Option DocumentDetail) (p : Panel)
    → p.detail ≡ none
    → next_target p.replace_target (files_of d) ≡ p.replace_target
    → IsTargeted (effects_if_left d p)
effects_if_left-IsTargeted none p e h = rw e h
effects_if_left-IsTargeted (some d) p e h = effects-IsTargeted p

select-IsTargeted : (id : Option Text) (p : Panel) → IsTargeted p → IsTargeted (select_doc id p)
unfolding select_doc
select-IsTargeted none p h = effects_if_left-IsTargeted p.detail _ refl h
select-IsTargeted (some id) p h = h

deselect-IsTargeted : (p : Panel) → IsTargeted p → IsTargeted (deselect p)
unfolding deselect
deselect-IsTargeted p h = elim (Bool-cases (is_some p.selected_doc_id)) [
  | inl full ↦ rw full (select-IsTargeted none p h)
  | inr blank ↦ rw blank (effects_if_left-IsTargeted p.detail _ refl h)
]

loaded-IsTargeted :
    (a : Text ⊎ DocumentDetail) (p : Panel) → IsTargeted p → IsTargeted (detail_loaded a p)
unfolding detail_loaded detail_effects
loaded-IsTargeted (inl message) p h = effects_if_left-IsTargeted p.detail _ refl h
loaded-IsTargeted (inr d) p h = next_target_idem p.replace_target d.files

release-IsTargeted : (r : Request) (p : Panel) → IsTargeted p → IsTargeted (release r p)
release-IsTargeted (delete_file document file) p h = h
release-IsTargeted (add_files document uploads) p h = h
release-IsTargeted (replace_file document file upload) p h = h
release-IsTargeted (save document payload) p h = h
release-IsTargeted (resolve document) p h = h
release-IsTargeted (delete_document document) p h = h

settle-IsTargeted :
    (r : Request) (a : Answer) (p : Panel) → IsTargeted p → IsTargeted (settle r a p)
unfolding settle detail_effects
settle-IsTargeted r (failed message) p h = release-IsTargeted r p h
settle-IsTargeted r (updated d) p h = next_target_idem (release r p).replace_target d.files
settle-IsTargeted r gone p h =
    deselect-IsTargeted (record (release r p) { is_modal_open = false }) (release-IsTargeted r p h)

-- Handlers set flags and messages, and leave the document and the target alone.
abbrev Keeps : Panel → Panel × Option Request → Type 0
Keeps p x = (x.0.detail ≡ p.detail) × (x.0.replace_target ≡ p.replace_target)

launch-IsTargeted :
    (w : Work) (x : Panel × Option Request)
    → Keeps w.panel x
    → IsTargeted w.panel
    → IsTargeted (launch x w).panel
launch-IsTargeted w (q, none) k h = rw (k.0, k.1) h
launch-IsTargeted w (q, some r) k h = rw (k.0, k.1) h

module _ (p : Panel) where
  delete_file-Keeps : (confirmed : Bool) (f : Text) → Keeps p (delete_detail_file confirmed f p)
  unfolding delete_detail_file
  delete_file-Keeps confirmed f = ground arith

  add-Keeps : Keeps p (add_detail_files p)
  unfolding add_detail_files
  add-Keeps = ground arith

  replace-Keeps : Keeps p (replace_detail_file p)
  unfolding replace_detail_file
  replace-Keeps = ground arith

  save-Keeps : Keeps p (save_detail_document p)
  unfolding save_detail_document
  save-Keeps = ground arith

  resolve-Keeps : Keeps p (quick_resolve_detail_review p)
  unfolding quick_resolve_detail_review
  resolve-Keeps = ground arith

  delete-Keeps : (confirmed : Bool) → Keeps p (delete_detail_document confirmed p)
  unfolding delete_detail_document
  delete-Keeps confirmed = ground arith

  reset-IsTargeted : IsTargeted p → IsTargeted (reset_detail_meta_editor p)
  unfolding reset_detail_meta_editor
  reset-IsTargeted h = elim (Option-cases p.detail) [
    | inl blank ↦ rw blank (rw blank at h)
    | inr (d, full) ↦ rw full (rw full at h)
  ]

-- A file that the select box offers is a target.
offered-IsTarget :
    (id : Text) (fs : List DocumentFile)
    → is_empty id ≡ false
    → contains (file_ids fs) id ≡ true
    → next_target id fs ≡ id
offered-IsTarget id [] n h = cc
offered-IsTarget id (f ∷ fs) n h = rw (n, h) refl

-- A target that is not empty is one of the files.
target-is_listed :
    (id : Text) (fs : List DocumentFile)
    → next_target id fs ≡ id
    → is_empty id ≡ false
    → contains (file_ids fs) id ≡ true
target-is_listed id [] e n = let k : true ≡ false = ap is_empty e ∙ n in cc
target-is_listed id (f ∷ fs) e n = elim (Bool-cases (contains (file_ids (f ∷ fs)) id)) [
  | inl there ↦ there
  | inr missing ↦
      let first : f.id ≡ id = rw (n, missing) at e in ground (arith, list_beq_iff id f.id)
]

module _ (w : Work) (h : IsTargeted w.panel) where
  choose-IsTargeted : (id : Text) → IsTargeted (choose_doc id w).panel
  choose-IsTargeted id = elim (Bool-cases (is_selected w.panel.selected_doc_id id)) [
    | inl same ↦ rw same h
    | inr other ↦ rw other (select-IsTargeted (some id) w.panel h)
  ]

  drop-IsTargeted : IsTargeted (drop_doc w).panel
  drop-IsTargeted = elim (Bool-cases (is_some w.panel.selected_doc_id)) [
    | inl full ↦ rw full (select-IsTargeted none w.panel h)
    | inr blank ↦ rw blank h
  ]

  receive-IsTargeted : (a : Text ⊎ DocumentDetail) → IsTargeted (receive a w).panel
  receive-IsTargeted a = elim (Option-cases w.load) [
    | inl blank ↦ rw blank h
    | inr (id, full) ↦ rw full (loaded-IsTargeted a w.panel h)
  ]

  answer-IsTargeted : (a : Answer) → IsTargeted (answer_sent a w).panel
  answer-IsTargeted a = elim (Option-cases w.sent) [
    | inl blank ↦ rw blank h
    | inr (r, under_way) ↦ rw under_way (settle-IsTargeted r a w.panel h)
  ]

  react-IsTargeted : (e : Event) → HasId e → offers w e ≡ true → IsTargeted (react w e).panel
  unfolding react
  react-IsTargeted (chosen id) k o = choose-IsTargeted id
  react-IsTargeted (moved id) k o = choose-IsTargeted id
  react-IsTargeted opened k o = elim (Bool-cases (is_some w.panel.selected_doc_id)) [
    | inl full ↦ rw full h
    | inr blank ↦ rw blank h
  ]
  react-IsTargeted dropped k o = drop-IsTargeted
  react-IsTargeted closed k o = h
  react-IsTargeted (tab_pressed tab) k o = h
  react-IsTargeted (loaded a) k o = receive-IsTargeted a
  react-IsTargeted (answered a) k o = answer-IsTargeted a
  react-IsTargeted edit_pressed k o = h
  react-IsTargeted reset_pressed k o = reset-IsTargeted w.panel h
  react-IsTargeted (typed form) k o = h
  react-IsTargeted (uploads_chosen uploads) k o = h
  react-IsTargeted (target_chosen id) k o =
      offered-IsTarget id (files_of w.panel.detail) k (ground arith)
  react-IsTargeted (upload_chosen upload) k o = h
  react-IsTargeted (delete_file_pressed confirmed file) k o =
      launch-IsTargeted w _ (delete_file-Keeps w.panel confirmed file) h
  react-IsTargeted add_pressed k o = launch-IsTargeted w _ (add-Keeps w.panel) h
  react-IsTargeted replace_pressed k o = launch-IsTargeted w _ (replace-Keeps w.panel) h
  react-IsTargeted save_pressed k o = launch-IsTargeted w _ (save-Keeps w.panel) h
  react-IsTargeted resolve_pressed k o = launch-IsTargeted w _ (resolve-Keeps w.panel) h
  react-IsTargeted (delete_pressed confirmed) k o =
      launch-IsTargeted w _ (delete-Keeps w.panel confirmed) h

step-IsTargeted :
    (w : Work) (e : Event) → HasId e → IsTargeted w.panel → IsTargeted (step w e).panel
unfolding step
step-IsTargeted w e k h = elim (Bool-cases (offers w e)) [
  | inl on ↦ rw on (react-IsTargeted w h e k on)
  | inr off ↦ rw off h
]

steps-IsTargeted :
    (events : List Event) (w : Work)
    → All HasId events
    → IsTargeted w.panel
    → IsTargeted (steps w events).panel
unfolding steps
steps-IsTargeted [] w k h = h
steps-IsTargeted (e ∷ events) w k h =
    steps-IsTargeted events (step w e) k.1 (step-IsTargeted w e k.0 h)

-- The request goes to the document that is shown, and names one of its files.
abbrev pub IsAddressed : Option DocumentDetail → Text → Text → Type 0
IsAddressed none document file = ⊥
IsAddressed (some d) document file = (document ≡ d.id) × (contains (file_ids d.files) file ≡ true)

replaced-IsAddressed :
    (p : Panel) (document file : Text) (upload : Upload)
    → IsTargeted p
    → (replace_detail_file p).1 ≡ some (replace_file document file upload)
    → IsAddressed p.detail document file
unfolding replace_detail_file
replaced-IsAddressed p document file upload h e = elim (Option-cases p.detail) [
  | inl blank ↦ let e' : none ≡ some (replace_file document file upload) = rw blank at e in cc
  | inr (d, full) ↦ elim (Bool-cases (is_empty p.replace_target)) [
    | inl nothing ↦
        let e' : none ≡ some (replace_file document file upload) = rw (full, nothing) at e in cc
    | inr more ↦ elim (Option-cases p.replace_upload) [
      | inl none_chosen ↦
          let e' : none ≡ some (replace_file document file upload) =
            rw (full, more, none_chosen) at e in
          cc
      | inr (u, chosen_one) ↦
          let e' : some (replace_file d.id p.replace_target u)
              ≡ some (replace_file document file upload) =
            rw (full, more, chosen_one) at e in
          let same : d.id ≡ document = cc in
          let there : p.replace_target ≡ file = cc in
          rw full
            (sym same, rw (← there) (target-is_listed p.replace_target d.files (rw full at h) more))
    ]
  ]
]

-- From the mounted page, after any events on files with identifiers: a replacement that is sent
-- goes to the document of the panel and to one of its files.
pub steps-replace-IsAddressed :
    (can_resolve : Bool) (events : List Event) (document file : Text) (upload : Upload)
    → All HasId events
    → (replace_detail_file (steps (idle can_resolve) events).panel).1
      ≡ some (replace_file document file upload)
    → IsAddressed (steps (idle can_resolve) events).panel.detail document file
steps-replace-IsAddressed can_resolve events document file upload k e =
    replaced-IsAddressed (steps (idle can_resolve) events).panel document file upload
      (steps-IsTargeted events (idle can_resolve) k refl) e
