-- ===== src/Archive/Panel/Current.antt =====
-- Which document the panel shows (components/archive/ArchiveWorkspace.tsx).
use clip_to_doc_archive.Archive.Details.{DocumentDetail}
use mathlib.Core.Option
use clip_to_doc_archive.Archive.Panel.{
  Panel, select_doc, detail_loaded, detail_effects, files_effect, form_effect,
}
use clip_to_doc_archive.Archive.Panel.Requests.{
  Request, updated, settle, document_of, delete_file, add_files, replace_file, save, resolve,
  delete_document,
}
use clip_to_doc_archive.Archive.Panel.Work.{
  Work, Event, chosen, moved, dropped, closed, loaded, answered, is_shown, react, step, steps,
  is_selected, launch,
}
use clip_to_doc_archive.Prelude.{
  subst, ◌≡◌, refl, ◌∙◌, inr, true, false, Option, none, some, List, [], ◌∷◌, arith, nat_eq,
  list_eq,
}
use clip_to_doc_archive.Text.{Text}

-- Where a request is under way and another document is chosen and loaded, an answer that brings
-- the first document puts it in the panel, while the other one stays selected.
pub overtaken-answer :
    (w : Work) (r : Request) (a b : DocumentDetail)
    → w.sent ≡ some r
    → is_selected w.panel.selected_doc_id b.id ≡ false
    → let q = (steps w (closed ∷ chosen b.id ∷ loaded (inr b) ∷ answered (updated a) ∷ [])).panel in
      (q.selected_doc_id ≡ some b.id) × (q.detail ≡ some a)
unfolding steps step react select_doc detail_loaded detail_effects files_effect form_effect settle
overtaken-answer w (delete_file document file) a b under_way other =
    rw (other, under_way) (refl, refl)
overtaken-answer w (add_files document uploads) a b under_way other =
    rw (other, under_way) (refl, refl)
overtaken-answer w (replace_file document file upload) a b under_way other =
    rw (other, under_way) (refl, refl)
overtaken-answer w (save document payload) a b under_way other = rw (other, under_way) (refl, refl)
overtaken-answer w (resolve document) a b under_way other = rw (other, under_way) (refl, refl)
overtaken-answer w (delete_document document) a b under_way other =
    rw (other, under_way) (refl, refl)

-- The selection, the load and the request fit together: without a load the document of the panel
-- is the selected one, and a request was sent for it while nothing loads.
abbrev pub IsAt : Option DocumentDetail → Option Text → Type 0
IsAt none selected = Unit
IsAt (some d) selected = selected ≡ some d.id

abbrev pub LoadFits : Option Text → Panel → Type 0
LoadFits none p = IsAt p.detail p.selected_doc_id
LoadFits (some id) p = (p.selected_doc_id ≡ some id) × (p.detail_loading ≡ true)

abbrev pub SentFits : Option Request → Option Text → Panel → Type 0
SentFits none load p = Unit
SentFits (some r) load p = (load ≡ none) × (p.selected_doc_id ≡ some (document_of r))

pub record IsCurrent (w : Work) : Type 0 where
  pub loading : LoadFits w.load w.panel
  pub sending : SentFits w.sent w.load w.panel

-- No document is chosen or dropped while a request is under way, and the service answers about the
-- document that it was asked for.
abbrev pub IsCalm : Work → Event → Type 0
IsCalm w (chosen id) = w.sent ≡ none
IsCalm w (moved id) = w.sent ≡ none
IsCalm w dropped = w.sent ≡ none
IsCalm w (loaded (inr d)) = w.load ≡ some d.id
IsCalm w (answered (updated d)) = Option.map document_of w.sent ≡ some d.id
IsCalm w _ = Unit

abbrev pub CalmRun : Work → List Event → Type 0
CalmRun w [] = Unit
CalmRun w (e ∷ events) = IsCalm w e × CalmRun (step w e) events

-- A step that keeps the document, the selection and the loading flag keeps the fit.
abbrev pub SamePlace : Panel → Panel → Type 0
SamePlace q p =
    (q.detail ≡ p.detail)
    × (q.selected_doc_id ≡ p.selected_doc_id)
    × (q.detail_loading ≡ p.detail_loading)

pub LoadFits-same :
    (load : Option Text) (q p : Panel) → SamePlace q p → LoadFits load p → LoadFits load q
LoadFits-same none q p e h = rw (e.0, e.1) h
LoadFits-same (some id) q p e h = (e.1 ∙ h.0, e.2 ∙ h.1)

pub SentFits-same :
    (sent : Option Request) (load : Option Text) (q p : Panel)
    → SamePlace q p
    → SentFits sent load p
    → SentFits sent load q
SentFits-same none load q p e h = tt
SentFits-same (some r) load q p e h = (h.0, e.1 ∙ h.1)

pub kept-IsCurrent :
    (w : Work) (q : Panel) → SamePlace q w.panel → IsCurrent w → IsCurrent (record w { panel = q })
kept-IsCurrent w q e h = record {
  loading = LoadFits-same w.load q w.panel e h.loading;
  sending = SentFits-same w.sent w.load q w.panel e h.sending;
}

-- What a handler sends goes to the document that is in the panel.
abbrev pub Sends : Panel → Panel × Option Request → Type 0
Sends p (q, none) = SamePlace q p
Sends p (q, some r) =
    SamePlace q p × (Option.map (λ (d : DocumentDetail). d.id) p.detail ≡ some (document_of r))

-- A document that is shown is not loading.
pub shown-load :
    (load : Option Text) (p : Panel) → LoadFits load p → is_shown p ≡ true → load ≡ none
shown-load none p h s = refl
shown-load (some id) p h s = ground arith

located :
    (detail : Option DocumentDetail) (selected : Option Text) (id : Text)
    → IsAt detail selected
    → Option.map (λ (d : DocumentDetail). d.id) detail ≡ some id
    → selected ≡ some id
located none selected id h e = cc
located (some d) selected id h e = h ∙ e

pub launch-IsCurrent :
    (w : Work) (x : Panel × Option Request)
    → Sends w.panel x
    → is_shown w.panel ≡ true
    → IsCurrent w
    → IsCurrent (launch x w)
launch-IsCurrent w (q, none) k s h = kept-IsCurrent w q k h
launch-IsCurrent w (q, some r) k s h =
    let idle = shown-load w.load w.panel h.loading s in
    let at : IsAt w.panel.detail w.panel.selected_doc_id =
      subst (λ l. LoadFits l w.panel) idle h.loading in
    record {
      loading = LoadFits-same w.load q w.panel k.0 h.loading;
      sending =
          (idle, k.0.1 ∙ located w.panel.detail w.panel.selected_doc_id (document_of r) at k.1);
    }
