-- ===== src/Archive/Panel/Hidden.antt =====
-- What an error of the panel hides (components/archive/ArchiveWorkspace.tsx).
use clip_to_doc_archive.Archive.Details.{DocumentDetail}
use clip_to_doc_archive.Archive.Panel.{Panel, is_some}
use clip_to_doc_archive.Archive.Panel.Requests.{Answer, save_detail_document, is_busy}
use clip_to_doc_archive.Archive.Panel.Work.{
  Work, Event, chosen, moved, opened, dropped, closed, tab_pressed, loaded, answered, edit_pressed,
  reset_pressed, typed, uploads_chosen, target_chosen, upload_chosen, delete_file_pressed,
  add_pressed, replace_pressed, save_pressed, resolve_pressed, delete_pressed, offers, is_shown,
  is_view, choose_doc, receive, answer_sent, react, step, steps, is_selected,
}
use clip_to_doc_archive.Prelude.{
  subst, ◌≡◌, refl, sym, ◌⊎◌, inl, inr, true, false, none, List, [], ◌∷◌, arith, Bool-cases,
  Option-cases, nat_eq, list_eq, is_empty, All,
}
use clip_to_doc_archive.Text.{Text, trim}

-- An error stands in the panel of a document, and nothing is awaited.
pub record IsHidden (id : Text) (w : Work) : Type 0 where
  pub error : is_empty w.panel.detail_error ≡ false
  pub unsent : w.sent ≡ none
  pub unloaded : w.load ≡ none
  pub here : is_selected w.panel.selected_doc_id id ≡ true

-- The user stays at the document.
abbrev pub Stays : Text → Event → Type 0
Stays id (chosen other) = other ≡ id
Stays id (moved other) = other ≡ id
Stays id dropped = ⊥
Stays id _ = Unit

hidden-not_shown : (p : Panel) → is_empty p.detail_error ≡ false → is_shown p ≡ false
hidden-not_shown p h = ground arith

module _ (id : Text) (w : Work) (h : IsHidden id w) where
  same-IsHidden :
      (q : Panel)
      → q.detail_error ≡ w.panel.detail_error
      → q.selected_doc_id ≡ w.panel.selected_doc_id
      → IsHidden id (record w { panel = q })
  same-IsHidden q e k = record {
    error = rw e h.error;
    unsent = h.unsent;
    unloaded = h.unloaded;
    here = rw k h.here;
  }

  choose-hidden : (other : Text) → other ≡ id → choose_doc other w ≡ w
  choose-hidden other e =
      let same : is_selected w.panel.selected_doc_id other ≡ true = rw e h.here in rw same refl

  choose-IsHidden : (other : Text) → other ≡ id → IsHidden id (choose_doc other w)
  choose-IsHidden other e = subst (IsHidden id) (sym (choose-hidden other e)) h

  opened-IsHidden : IsHidden id (react w opened)
  unfolding react
  opened-IsHidden = elim (Bool-cases (is_some w.panel.selected_doc_id)) [
    | inl full ↦ rw full (same-IsHidden (record w.panel { is_modal_open = true }) refl refl)
    | inr blank ↦ rw blank h
  ]

  receive-IsHidden : (a : Text ⊎ DocumentDetail) → IsHidden id (receive a w)
  receive-IsHidden a =
      rw h.unloaded (record { error = h.error; unsent = h.unsent; unloaded = refl; here = h.here })

  answer-IsHidden : (a : Answer) → IsHidden id (answer_sent a w)
  answer-IsHidden a =
      rw h.unsent (record { error = h.error; unsent = refl; unloaded = h.unloaded; here = h.here })

  -- What the window does not render does nothing.
  react-IsHidden : (e : Event) → Stays id e → offers w e ≡ true → IsHidden id (react w e)
  unfolding react
  react-IsHidden (chosen other) s o =
      let k = choose-IsHidden other s in
      record { error = k.error; unsent = k.unsent; unloaded = k.unloaded; here = k.here }
  react-IsHidden (moved other) s o = choose-IsHidden other s
  react-IsHidden opened s o = opened-IsHidden
  react-IsHidden dropped s o = absurd s
  react-IsHidden closed s o = same-IsHidden (record w.panel { is_modal_open = false }) refl refl
  react-IsHidden (loaded a) s o = receive-IsHidden a
  react-IsHidden (answered a) s o = answer-IsHidden a
  react-IsHidden (tab_pressed tab) s o = absurd (ground (arith, hidden-not_shown w.panel h.error))
  react-IsHidden edit_pressed s o = absurd (ground (arith, hidden-not_shown w.panel h.error))
  react-IsHidden reset_pressed s o = absurd (ground (arith, hidden-not_shown w.panel h.error))
  react-IsHidden (typed form) s o = absurd (ground (arith, hidden-not_shown w.panel h.error))
  react-IsHidden (uploads_chosen uploads) s o =
      absurd (ground (arith, hidden-not_shown w.panel h.error))
  react-IsHidden (target_chosen file) s o =
      absurd (ground (arith, hidden-not_shown w.panel h.error))
  react-IsHidden (upload_chosen upload) s o =
      absurd (ground (arith, hidden-not_shown w.panel h.error))
  react-IsHidden (delete_file_pressed confirmed file) s o =
      absurd (ground (arith, hidden-not_shown w.panel h.error))
  react-IsHidden add_pressed s o = absurd (ground (arith, hidden-not_shown w.panel h.error))
  react-IsHidden replace_pressed s o = absurd (ground (arith, hidden-not_shown w.panel h.error))
  react-IsHidden save_pressed s o = absurd (ground (arith, hidden-not_shown w.panel h.error))
  react-IsHidden resolve_pressed s o = absurd (ground (arith, hidden-not_shown w.panel h.error))
  react-IsHidden (delete_pressed confirmed) s o =
      absurd (ground (arith, hidden-not_shown w.panel h.error))

  step-IsHidden : (e : Event) → Stays id e → IsHidden id (step w e)
  unfolding step
  step-IsHidden e s = elim (Bool-cases (offers w e)) [
    | inl on ↦ rw on (react-IsHidden e s on)
    | inr off ↦ rw off h
  ]

steps-IsHidden :
    (id : Text) (events : List Event) (w : Work)
    → All (Stays id) events
    → IsHidden id w
    → IsHidden id (steps w events)
unfolding steps
steps-IsHidden id [] w s h = h
steps-IsHidden id (e ∷ events) w s h =
    steps-IsHidden id events (step w e) s.1 (step-IsHidden id w h e s.0)

-- The document is open in the editor, its title is blank, and nothing is awaited.
pub record IsUntitled (id : Text) (w : Work) : Type 0 where
  pub shown : is_shown w.panel ≡ true
  pub free : is_busy w.panel ≡ false
  pub editor : is_view w.panel.mode ≡ false
  pub blank : is_empty (trim w.panel.form.title) ≡ true
  pub unsent : w.sent ≡ none
  pub unloaded : w.load ≡ none
  pub here : is_selected w.panel.selected_doc_id id ≡ true

refused-IsHidden : (id : Text) (w : Work) → IsUntitled id w → IsHidden id (step w save_pressed)
unfolding step react save_detail_document
refused-IsHidden id w u = elim (Option-cases w.panel.detail) [
  | inl none_shown ↦ absurd (ground (arith, u.shown))
  | inr (d, full) ↦
      rw (u.shown, u.free, u.editor)
        (rw (full, u.blank)
          (record { error = refl; unsent = u.unsent; unloaded = u.unloaded; here = u.here }))
]

-- After a save with a blank title, the document is no longer shown, whatever happens while no
-- other document is chosen and the selection is not dropped.
pub untitled-hidden :
    (id : Text) (w : Work) (events : List Event)
    → IsUntitled id w
    → All (Stays id) events
    → is_shown (steps w (save_pressed ∷ events)).panel ≡ false
unfolding steps
untitled-hidden id w events u s =
    let h = steps-IsHidden id events (step w save_pressed) s (refused-IsHidden id w u) in
    hidden-not_shown (steps (step w save_pressed) events).panel h.error
