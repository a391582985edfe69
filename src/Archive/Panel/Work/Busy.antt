-- ===== src/Archive/Panel/Work/Busy.antt =====
-- The flags of the panel and the request that is under way (components/archive/ArchiveWorkspace.tsx).
use clip_to_doc_archive.Archive.Panel.Work.Flags.{
  SameFlags, select_doc-flags, detail_loaded-flags, reset-flags, settle-flags,
}
use clip_to_doc_archive.Archive.Details.{DocumentDetail}
use clip_to_doc_archive.Archive.Panel.{is_some, Panel, select_doc}
use clip_to_doc_archive.Archive.Panel.Requests.{
  Request, Answer, delete_document, delete_file, add_files, replace_file, save, resolve,
  delete_detail_file, add_detail_files, replace_detail_file, save_detail_document,
  quick_resolve_detail_review, delete_detail_document, is_busy, release,
}
use clip_to_doc_archive.Archive.Panel.Work.{
  Work, Event, chosen, moved, opened, dropped, closed, tab_pressed, loaded, answered, edit_pressed,
  reset_pressed, typed, uploads_chosen, target_chosen, upload_chosen, delete_file_pressed,
  add_pressed, replace_pressed, save_pressed, resolve_pressed, delete_pressed, HasId, offers,
  choose_doc, drop_doc, receive, answer_sent, react, step, steps, idle, is_selected, launch,
}
use clip_to_doc_archive.Prelude.{
  ◌≡◌, refl, sym, ◌∙◌, ◌⊎◌, inl, inr, Bool, true, false, Option, none, some, List, [], ◌∷◌, arith,
  Bool-cases, Option-cases, nat_eq, list_eq, is_empty, All,
}
use clip_to_doc_archive.Text.{Text, codes, trim}

abbrev pub is_about_document : Option Request → Bool
is_about_document (some (save document payload)) = true
is_about_document (some (resolve document)) = true
is_about_document (some (delete_document document)) = true
is_about_document _ = false

abbrev pub file_lock : Option Request → Option Text
file_lock (some (delete_file document file)) = some file
file_lock (some (add_files document uploads)) = some (codes "__add__")
file_lock (some (replace_file document file upload)) = some file
file_lock _ = none

-- The flags say which request is under way, and the buttons are disabled exactly then.
pub record IsLocked (p : Panel) (sent : Option Request) : Type 0 where
  pub document : p.doc_action_loading ≡ is_about_document sent
  pub file : p.file_action ≡ file_lock sent
  pub busy : is_busy p ≡ is_some sent

IsLocked-same :
    (p q : Panel) (sent : Option Request) → SameFlags q p → IsLocked p sent → IsLocked q sent
IsLocked-same p q sent e h = record {
  document = e.0 ∙ h.document;
  file = e.1 ∙ h.file;
  busy = rw (e.0, e.1) h.busy;
}

-- The end of a request clears its own flag, and the other one was clear.
release-IsLocked : (r : Request) (p : Panel) → IsLocked p (some r) → IsLocked (release r p) none
release-IsLocked (delete_file document file) p h = record {
  document = h.document;
  file = refl;
  busy = rw h.document refl;
}
release-IsLocked (add_files document uploads) p h = record {
  document = h.document;
  file = refl;
  busy = rw h.document refl;
}
release-IsLocked (replace_file document file upload) p h = record {
  document = h.document;
  file = refl;
  busy = rw h.document refl;
}
release-IsLocked (save document payload) p h = record {
  document = refl;
  file = h.file;
  busy = rw h.file refl;
}
release-IsLocked (resolve document) p h = record {
  document = refl;
  file = h.file;
  busy = rw h.file refl;
}
release-IsLocked (delete_document document) p h = record {
  document = refl;
  file = h.file;
  busy = rw h.file refl;
}

-- A handler that sends nothing keeps the flags, and one that sends a request sets its own.
abbrev Launched : Panel → Panel × Option Request → Type 0
Launched p (q, none) = SameFlags q p
Launched p (q, some r) = IsLocked q (some r)

launch-IsLocked :
    (w : Work) (x : Panel × Option Request)
    → Launched w.panel x
    → IsLocked w.panel w.sent
    → IsLocked (launch x w).panel (launch x w).sent
launch-IsLocked w (q, none) l h = IsLocked-same w.panel q w.sent l h
launch-IsLocked w (q, some r) l h = l

module _ (p : Panel) (document : p.doc_action_loading ≡ false) (file : p.file_action ≡ none) where
  delete_file-Launched :
      (confirmed : Bool) (f : Text)
      → is_empty f ≡ false
      → Launched p (delete_detail_file confirmed f p)
  unfolding delete_detail_file
  delete_file-Launched confirmed f named = elim (Option-cases p.detail) [
    | inl blank ↦ rw blank (refl, refl)
    | inr (d, full) ↦ elim (Bool-cases confirmed) [
      | inl yes' ↦
          rw (full, yes')
            (record { document = document; file = refl; busy = rw (document, named) refl })
      | inr no' ↦ rw (full, no') (refl, refl)
    ]
  ]

  add-Launched : Launched p (add_detail_files p)
  unfolding add_detail_files
  add-Launched = elim (Option-cases p.detail) [
    | inl blank ↦ rw blank (refl, refl)
    | inr (d, full) ↦ elim (Bool-cases (is_empty p.add_uploads)) [
      | inl nothing ↦ rw (full, nothing) (refl, refl)
      | inr more ↦
          rw (full, more) (record { document = document; file = refl; busy = rw document refl })
    ]
  ]

  replace-Launched : Launched p (replace_detail_file p)
  unfolding replace_detail_file
  replace-Launched = elim (Option-cases p.detail) [
    | inl blank ↦ rw blank (refl, refl)
    | inr (d, full) ↦ elim (Bool-cases (is_empty p.replace_target)) [
      | inl nothing ↦ rw (full, nothing) (refl, refl)
      | inr more ↦ elim (Option-cases p.replace_upload) [
        | inl none_chosen ↦ rw (full, more, none_chosen) (refl, refl)
        | inr (u, chosen_one) ↦
            rw (full, more, chosen_one)
              (record { document = document; file = refl; busy = rw (document, more) refl })
      ]
    ]
  ]

  save-Launched : Launched p (save_detail_document p)
  unfolding save_detail_document
  save-Launched = elim (Option-cases p.detail) [
    | inl blank ↦ rw blank (refl, refl)
    | inr (d, full) ↦ elim (Bool-cases (is_empty (trim p.form.title))) [
      | inl untitled ↦ rw (full, untitled) (refl, refl)
      | inr titled ↦ rw (full, titled) (record { document = refl; file = file; busy = refl })
    ]
  ]

  resolve-Launched : Launched p (quick_resolve_detail_review p)
  unfolding quick_resolve_detail_review
  resolve-Launched = elim (Option-cases p.detail) [
    | inl blank ↦ rw blank (refl, refl)
    | inr (d, full) ↦ rw full (record { document = refl; file = file; busy = refl })
  ]

  delete-Launched : (confirmed : Bool) → Launched p (delete_detail_document confirmed p)
  unfolding delete_detail_document
  delete-Launched confirmed = elim (Option-cases p.detail) [
    | inl blank ↦ rw blank (refl, refl)
    | inr (d, full) ↦ elim (Bool-cases confirmed) [
      | inl yes' ↦ rw (full, yes') (record { document = refl; file = file; busy = refl })
      | inr no' ↦ rw (full, no') (refl, refl)
    ]
  ]

-- Where no button is disabled, both flags are clear.
clear_flags :
    (p : Panel) (sent : Option Request)
    → IsLocked p sent
    → is_busy p ≡ false
    → (p.doc_action_loading ≡ false) × (p.file_action ≡ none)
clear_flags p none h idle = (h.document, h.file)
clear_flags p (some r) h idle = let e : true ≡ false = sym h.busy ∙ idle in cc

choose-IsLocked :
    (id : Text) (w : Work)
    → IsLocked w.panel w.sent
    → IsLocked (choose_doc id w).panel (choose_doc id w).sent
choose-IsLocked id w h = elim (Bool-cases (is_selected w.panel.selected_doc_id id)) [
  | inl same ↦ rw same h
  | inr other ↦ rw other (IsLocked-same w.panel _ w.sent (select_doc-flags (some id) w.panel) h)
]

module _ (w : Work) (h : IsLocked w.panel w.sent) where
  -- Another panel with the same flags.
  same-IsLocked : (q : Panel) → SameFlags q w.panel → IsLocked q w.sent
  same-IsLocked q e = IsLocked-same w.panel q w.sent e h

  drop-IsLocked : IsLocked (drop_doc w).panel (drop_doc w).sent
  drop-IsLocked = elim (Bool-cases (is_some w.panel.selected_doc_id)) [
    | inl full ↦
        rw full
          (IsLocked-same w.panel (select_doc none w.panel) w.sent (select_doc-flags none w.panel) h)
    | inr blank ↦ rw blank h
  ]

  receive-IsLocked : (a : Text ⊎ DocumentDetail) → IsLocked (receive a w).panel (receive a w).sent
  receive-IsLocked a = elim (Option-cases w.load) [
    | inl blank ↦ rw blank h
    | inr (id, full) ↦ rw full (IsLocked-same w.panel _ w.sent (detail_loaded-flags a w.panel) h)
  ]

  answer-IsLocked : (a : Answer) → IsLocked (answer_sent a w).panel (answer_sent a w).sent
  answer-IsLocked a = elim (Option-cases w.sent) [
    | inl blank ↦ rw blank (rw blank at h)
    | inr (r, under_way) ↦ rw under_way (
        IsLocked-same (release r w.panel) _ none (settle-flags r a w.panel)
          (release-IsLocked r w.panel (rw under_way at h)))
  ]

  -- A button that is pressed was not disabled.
  pressed :
      (x : Panel × Option Request)
      → is_busy w.panel ≡ false
      → (w.panel.doc_action_loading ≡ false → w.panel.file_action ≡ none → Launched w.panel x)
      → IsLocked (launch x w).panel (launch x w).sent
  pressed x idle l =
      let (document, file) = clear_flags w.panel w.sent h idle in
      launch-IsLocked w x (l document file) h

  react-IsLocked :
      (e : Event) → HasId e → offers w e ≡ true → IsLocked (react w e).panel (react w e).sent
  unfolding react
  react-IsLocked (chosen id) k o =
      let c = choose-IsLocked id w h in IsLocked-same (choose_doc id w).panel _ _ (refl, refl) c
  react-IsLocked (moved id) k o = choose-IsLocked id w h
  react-IsLocked opened k o = elim (Bool-cases (is_some w.panel.selected_doc_id)) [
    | inl full ↦ rw full (same-IsLocked _ (refl, refl))
    | inr blank ↦ rw blank h
  ]
  react-IsLocked dropped k o = drop-IsLocked
  react-IsLocked closed k o = same-IsLocked _ (refl, refl)
  react-IsLocked (tab_pressed tab) k o = same-IsLocked _ (refl, refl)
  react-IsLocked (loaded a) k o = receive-IsLocked a
  react-IsLocked (answered a) k o = answer-IsLocked a
  react-IsLocked edit_pressed k o = same-IsLocked _ (refl, refl)
  react-IsLocked reset_pressed k o = same-IsLocked _ (reset-flags w.panel)
  react-IsLocked (typed form) k o = same-IsLocked _ (refl, refl)
  react-IsLocked (uploads_chosen uploads) k o = same-IsLocked _ (refl, refl)
  react-IsLocked (target_chosen id) k o = same-IsLocked _ (refl, refl)
  react-IsLocked (upload_chosen upload) k o = same-IsLocked _ (refl, refl)
  react-IsLocked (delete_file_pressed confirmed file) k o =
      pressed (delete_detail_file confirmed file w.panel) (ground arith)
        (λ d f. delete_file-Launched w.panel d f confirmed file k)
  react-IsLocked add_pressed k o =
      pressed (add_detail_files w.panel) (ground arith) (λ d f. add-Launched w.panel d f)
  react-IsLocked replace_pressed k o =
      pressed (replace_detail_file w.panel) (ground arith) (λ d f. replace-Launched w.panel d f)
  react-IsLocked save_pressed k o =
      pressed (save_detail_document w.panel) (ground arith) (λ d f. save-Launched w.panel d f)
  react-IsLocked resolve_pressed k o =
      pressed (quick_resolve_detail_review w.panel) (ground arith)
        (λ d f. resolve-Launched w.panel d f)
  react-IsLocked (delete_pressed confirmed) k o =
      pressed (delete_detail_document confirmed w.panel) (ground arith)
        (λ d f. delete-Launched w.panel d f confirmed)

step-IsLocked :
    (w : Work) (e : Event)
    → HasId e
    → IsLocked w.panel w.sent
    → IsLocked (step w e).panel (step w e).sent
unfolding step
step-IsLocked w e k h = elim (Bool-cases (offers w e)) [
  | inl on ↦ rw on (react-IsLocked w h e k on)
  | inr off ↦ rw off h
]

steps-IsLocked :
    (events : List Event) (w : Work)
    → All HasId events
    → IsLocked w.panel w.sent
    → IsLocked (steps w events).panel (steps w events).sent
unfolding steps
steps-IsLocked [] w k h = h
steps-IsLocked (e ∷ events) w k h = steps-IsLocked events (step w e) k.1 (step-IsLocked w e k.0 h)

-- From the mounted page, after any events on files with identifiers: the panel is busy if and only
-- if a request is under way, so no second one is sent before the first is answered.
pub idle-steps-IsLocked :
    (can_resolve : Bool) (events : List Event)
    → All HasId events
    → IsLocked (steps (idle can_resolve) events).panel (steps (idle can_resolve) events).sent
idle-steps-IsLocked can_resolve events k =
    steps-IsLocked events (idle can_resolve) k
      (record { document = refl; file = refl; busy = refl })
