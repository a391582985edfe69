-- ===== src/Archive/Panel/Calm.antt =====
-- The document in the panel while requests come and go (components/archive/ArchiveWorkspace.tsx).
use clip_to_doc_archive.Archive.Details.{DocumentDetail}
use clip_to_doc_archive.Archive.Panel.{
  Panel, select_doc, detail_loaded, detail_effects, effects_if_left, deselect, files_effect,
  form_effect, is_some,
}
use clip_to_doc_archive.Archive.Panel.Requests.{
  Request, Answer, gone, failed, updated, save_detail_document, settle, release, document_of,
  delete_file, add_files, replace_file, save, resolve, delete_document, delete_detail_file,
  add_detail_files, replace_detail_file, quick_resolve_detail_review, delete_detail_document,
  reset_detail_meta_editor,
}
use clip_to_doc_archive.Archive.Panel.Work.{
  Work, Event, chosen, moved, opened, dropped, closed, tab_pressed, loaded, answered, edit_pressed,
  reset_pressed, typed, uploads_chosen, target_chosen, upload_chosen, delete_file_pressed,
  add_pressed, replace_pressed, save_pressed, resolve_pressed, delete_pressed, offers, is_shown,
  choose_doc, drop_doc, receive, answer_sent, react, step, steps, is_selected, idle, load_after,
}
use clip_to_doc_archive.Archive.Panel.Current.{
  IsAt, LoadFits, SentFits, IsCurrent, IsCalm, CalmRun, SamePlace, LoadFits-same, kept-IsCurrent,
  Sends, shown-load, launch-IsCurrent,
}
use mathlib.Core.Option.{some-injective}
use clip_to_doc_archive.Prelude.{
  subst, ◌≡◌, refl, sym, ap, ◌∙◌, ◌⊎◌, inl, inr, Bool, true, false, Option, none, some, List, [],
  ◌∷◌, arith, Bool-cases, Option-cases, nat_eq, list_eq,
}
use clip_to_doc_archive.Text.{Text}

module _ (p : Panel) where
  delete_file-Sends : (confirmed : Bool) (f : Text) → Sends p (delete_detail_file confirmed f p)
  unfolding delete_detail_file
  delete_file-Sends confirmed f = ground arith

  add-Sends : Sends p (add_detail_files p)
  unfolding add_detail_files
  add-Sends = ground arith

  replace-Sends : Sends p (replace_detail_file p)
  unfolding replace_detail_file
  replace-Sends = ground arith

  save-Sends : Sends p (save_detail_document p)
  unfolding save_detail_document
  save-Sends = ground arith

  resolve-Sends : Sends p (quick_resolve_detail_review p)
  unfolding quick_resolve_detail_review
  resolve-Sends = ground arith

  delete-Sends : (confirmed : Bool) → Sends p (delete_detail_document confirmed p)
  unfolding delete_detail_document
  delete-Sends confirmed = ground arith

  reset-SamePlace : SamePlace (reset_detail_meta_editor p) p
  unfolding reset_detail_meta_editor
  reset-SamePlace = ground arith

-- Dropping the document empties the panel.
effects_if_left-empty :
    (d : Option DocumentDetail) (p : Panel)
    → p.detail ≡ none
    → p.selected_doc_id ≡ none
    → ((effects_if_left d p).detail ≡ none) × ((effects_if_left d p).selected_doc_id ≡ none)
unfolding detail_effects files_effect form_effect
effects_if_left-empty none p e k = (e, k)
effects_if_left-empty (some d) p e k = (e, k)

emptied :
    (p : Panel) → ((select_doc none p).detail ≡ none) × ((select_doc none p).selected_doc_id ≡ none)
unfolding select_doc
emptied p = effects_if_left-empty p.detail _ refl refl

IsAt-empty : (p : Panel) → p.detail ≡ none → IsAt p.detail p.selected_doc_id
IsAt-empty p e = rw e tt

choose-IsCurrent :
    (w : Work) (id : Text) → w.sent ≡ none → IsCurrent w → IsCurrent (choose_doc id w)
unfolding select_doc
choose-IsCurrent w id idle h = elim (Bool-cases (is_selected w.panel.selected_doc_id id)) [
  | inl same ↦ rw same h
  | inr other ↦ rw other (record { loading = (refl, refl); sending = rw idle tt })
]

drop-IsCurrent : (w : Work) → w.sent ≡ none → IsCurrent w → IsCurrent (drop_doc w)
drop-IsCurrent w idle h = elim (Bool-cases (is_some w.panel.selected_doc_id)) [
  | inl full ↦ rw full (record {
    loading = IsAt-empty (select_doc none w.panel) (emptied w.panel).0;
    sending = rw idle tt;
  })
  | inr blank ↦ rw blank h
]

-- Where a load is under way, no request is.
load-unsent : (w : Work) (id : Text) → w.load ≡ some id → IsCurrent w → w.sent ≡ none
load-unsent w id e h = elim (Option-cases w.sent) [
  | inl unsent ↦ unsent
  | inr (r, under_way) ↦
      let k : SentFits (some r) w.load w.panel =
        subst (λ s. SentFits s w.load w.panel) under_way h.sending in
      let no_load : none ≡ some id = sym k.0 ∙ e in cc
]

detail-empty :
    (d : Option DocumentDetail) (p : Panel) → p.detail ≡ none → (effects_if_left d p).detail ≡ none
unfolding detail_effects files_effect form_effect
detail-empty none p e = e
detail-empty (some d) p e = e

failed-empty : (message : Text) (p : Panel) → (detail_loaded (inl message) p).detail ≡ none
unfolding detail_loaded
failed-empty message p = detail-empty p.detail _ refl

receive-IsCurrent :
    (w : Work) (a : Text ⊎ DocumentDetail)
    → IsCalm w (loaded a)
    → IsCurrent w
    → IsCurrent (receive a w)
unfolding detail_loaded
receive-IsCurrent w (inr d) c h =
    let here : (w.panel.selected_doc_id ≡ some d.id) × (w.panel.detail_loading ≡ true) =
      subst (λ l. LoadFits l w.panel) c h.loading in
    rw c (record {
      loading = unfold detail_effects files_effect form_effect in here.0;
      sending = rw (load-unsent w d.id c h) tt;
    })
receive-IsCurrent w (inl message) c h = elim (Option-cases w.load) [
  | inl blank ↦ rw blank (record {
    loading = subst (λ l. LoadFits l w.panel) blank h.loading;
    sending = subst (λ l. SentFits w.sent l w.panel) blank h.sending;
  })
  | inr (id, full) ↦ rw full (record {
    loading = IsAt-empty (detail_loaded (inl message) w.panel) (failed-empty message w.panel);
    sending = rw (load-unsent w id full h) tt;
  })
]

-- What ends a request leaves the document, the selection and the loading flag.
release-SamePlace : (r : Request) (p : Panel) → SamePlace (release r p) p
release-SamePlace (delete_file document file) p = (refl, refl, refl)
release-SamePlace (add_files document uploads) p = (refl, refl, refl)
release-SamePlace (replace_file document file upload) p = (refl, refl, refl)
release-SamePlace (save document payload) p = (refl, refl, refl)
release-SamePlace (resolve document) p = (refl, refl, refl)
release-SamePlace (delete_document document) p = (refl, refl, refl)

deselect-empty : (p : Panel) → (deselect p).detail ≡ none
unfolding deselect
deselect-empty p = elim (Bool-cases (is_some p.selected_doc_id)) [
  | inl full ↦ rw full (emptied p).0
  | inr blank ↦ rw blank (detail-empty p.detail _ refl)
]

settle-loading :
    (w : Work) (r : Request) (a : Answer)
    → w.sent ≡ some r
    → IsCalm w (answered a)
    → IsCurrent w
    → LoadFits (load_after a w.load) (settle r a w.panel)
unfolding settle
settle-loading w r (failed message) e c h =
    LoadFits-same w.load _ w.panel (release-SamePlace r w.panel) h.loading
settle-loading w r (updated d) e c h =
    let k : SentFits (some r) w.load w.panel = subst (λ s. SentFits s w.load w.panel) e h.sending in
    let same : document_of r ≡ d.id = some-injective (document_of r) d.id (rw e at c) in
    rw k.0 (
      unfold detail_effects files_effect form_effect in
      (release-SamePlace r w.panel).1 ∙ k.1 ∙ ap some same)
settle-loading w r gone e c h =
    IsAt-empty (deselect (record (release r w.panel) { is_modal_open = false }))
      (deselect-empty (record (release r w.panel) { is_modal_open = false }))

answer-IsCurrent :
    (w : Work) (a : Answer) → IsCalm w (answered a) → IsCurrent w → IsCurrent (answer_sent a w)
answer-IsCurrent w a c h = elim (Option-cases w.sent) [
  | inl blank ↦ rw blank (record { loading = h.loading; sending = tt })
  | inr (r, under_way) ↦
      rw under_way (record { loading = settle-loading w r a under_way c h; sending = tt })
]

react-IsCurrent :
    (w : Work) (e : Event) → IsCalm w e → offers w e ≡ true → IsCurrent w → IsCurrent (react w e)
unfolding react
react-IsCurrent w (chosen id) c o h =
    let k = choose-IsCurrent w id c h in
    kept-IsCurrent (choose_doc id w) (record (choose_doc id w).panel { is_modal_open = true })
      (refl, refl, refl) k
react-IsCurrent w (moved id) c o h = choose-IsCurrent w id c h
react-IsCurrent w opened c o h = elim (Bool-cases (is_some w.panel.selected_doc_id)) [
  | inl full ↦
      rw full (kept-IsCurrent w (record w.panel { is_modal_open = true }) (refl, refl, refl) h)
  | inr blank ↦ rw blank h
]
react-IsCurrent w dropped c o h = drop-IsCurrent w c h
react-IsCurrent w closed c o h = kept-IsCurrent w _ (refl, refl, refl) h
react-IsCurrent w (tab_pressed tab) c o h = kept-IsCurrent w _ (refl, refl, refl) h
react-IsCurrent w (loaded a) c o h = receive-IsCurrent w a c h
react-IsCurrent w (answered a) c o h = answer-IsCurrent w a c h
react-IsCurrent w edit_pressed c o h = kept-IsCurrent w _ (refl, refl, refl) h
react-IsCurrent w reset_pressed c o h =
    kept-IsCurrent w (reset_detail_meta_editor w.panel) (reset-SamePlace w.panel) h
react-IsCurrent w (typed form) c o h = kept-IsCurrent w _ (refl, refl, refl) h
react-IsCurrent w (uploads_chosen uploads) c o h = kept-IsCurrent w _ (refl, refl, refl) h
react-IsCurrent w (target_chosen id) c o h = kept-IsCurrent w _ (refl, refl, refl) h
react-IsCurrent w (upload_chosen upload) c o h = kept-IsCurrent w _ (refl, refl, refl) h
react-IsCurrent w (delete_file_pressed confirmed file) c o h =
    launch-IsCurrent w _ (delete_file-Sends w.panel confirmed file) (ground arith) h
react-IsCurrent w add_pressed c o h = launch-IsCurrent w _ (add-Sends w.panel) (ground arith) h
react-IsCurrent w replace_pressed c o h =
    launch-IsCurrent w _ (replace-Sends w.panel) (ground arith) h
react-IsCurrent w save_pressed c o h = launch-IsCurrent w _ (save-Sends w.panel) (ground arith) h
react-IsCurrent w resolve_pressed c o h =
    launch-IsCurrent w _ (resolve-Sends w.panel) (ground arith) h
react-IsCurrent w (delete_pressed confirmed) c o h =
    launch-IsCurrent w _ (delete-Sends w.panel confirmed) (ground arith) h

step-IsCurrent : (w : Work) (e : Event) → IsCalm w e → IsCurrent w → IsCurrent (step w e)
unfolding step
step-IsCurrent w e c h = elim (Bool-cases (offers w e)) [
  | inl on ↦ rw on (react-IsCurrent w e c on h)
  | inr off ↦ rw off h
]

steps-IsCurrent :
    (events : List Event) (w : Work) → CalmRun w events → IsCurrent w → IsCurrent (steps w events)
unfolding steps
steps-IsCurrent [] w c h = h
steps-IsCurrent (e ∷ events) w c h =
    steps-IsCurrent events (step w e) c.1 (step-IsCurrent w e c.0 h)

-- From the mounted page, after any events where no document is chosen or dropped while a request
-- is under way and the service answers about the document that it was asked for: if a document is
-- shown in the window, it is the selected one.
pub calm-IsCurrent :
    (can_resolve : Bool) (events : List Event)
    → CalmRun (idle can_resolve) events
    → is_shown (steps (idle can_resolve) events).panel ≡ true
    → IsAt
        (steps (idle can_resolve) events).panel.detail
        (steps (idle can_resolve) events).panel.selected_doc_id
calm-IsCurrent can_resolve events c s =
    let w = steps (idle can_resolve) events in
    let h = steps-IsCurrent events (idle can_resolve) c (record { loading = tt; sending = tt }) in
    subst (λ l. LoadFits l w.panel) (shown-load w.load w.panel h.loading s) h.loading
