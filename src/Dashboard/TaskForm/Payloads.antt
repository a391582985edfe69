-- ===== src/Dashboard/TaskForm/Payloads.antt =====
-- What the form of a task sends (components/dashboard/DashboardSummary.tsx).
use clip_to_doc_archive.Dashboard.TaskForm.{TaskSettings, TaskForm, filled}
use clip_to_doc_archive.Dashboard.TaskForm.Submit.{
  TaskPayload, Checked, refused, passed, ◌>>=◌, ◌>>◌, refuse_if, or_refuse, ends_early, check_task,
}
use clip_to_doc_archive.Prelude.{
  subst, ℕ, ◌≡◌, refl, Bool, true, false, not, ◌&&◌, ◌||◌, Option, none, some, [], ◌∷◌, arith,
  nat_eq, list_eq, is_empty, contains,
}
use clip_to_doc_archive.Text.{Text}

module _ {A : Type 0} (q : A → Bool) where
  -- The test of what was passed, if anything was.
  abbrev holds : Checked A → Bool
  holds (refused _) = true
  holds (passed a) = q a

  holds-refuse_if :
      (b : Bool) (message : Text) (k : Checked A)
      → (b ≡ false → holds k ≡ true)
      → holds (refuse_if b message >> k) ≡ true
  unfolding ◌>>◌ refuse_if
  holds-refuse_if true message k h = refl
  holds-refuse_if false message k h = h refl

  holds-or_refuse :
      {B : Type 0} (o : Option B) (message : Text) (k : B → Checked A)
      → ((b : B) → holds (k b) ≡ true)
      → holds (or_refuse o message >>= k) ≡ true
  unfolding ◌>>=◌ or_refuse
  holds-or_refuse none message k h = refl
  holds-or_refuse (some b) message k h = h b

  holds-bind :
      {B : Type 0} (o : Checked B) (k : B → Checked A)
      → ((b : B) → holds (k b) ≡ true)
      → holds (o >>= k) ≡ true
  unfolding ◌>>=◌
  holds-bind (refused _) k h = refl
  holds-bind (passed b) k h = h b

-- Both or neither.
abbrev are_paired : Option Text → Option Text → Bool
are_paired none none = true
are_paired (some _) (some _) = true
are_paired _ _ = false

are_paired-filled :
    (s t : Text)
    → not (is_empty s) && is_empty t ≡ false
    → is_empty s && not (is_empty t) ≡ false
    → are_paired (filled s) (filled t) ≡ true
are_paired-filled [] [] h g = refl
are_paired-filled [] (_ ∷ _) h g = ground arith
are_paired-filled (_ ∷ _) [] h g = ground arith
are_paired-filled (_ ∷ _) (_ ∷ _) h g = refl

-- A task of the settings: its category is one of them, its title is filled, it ends behind its start,
-- it lasts all day only where that is allowed, and a document and its file go together.
unfoldable pub is_task : TaskSettings → TaskPayload → Bool
is_task settings p =
    contains settings.categories p.category
    && not (is_empty p.title)
    && not (ends_early p.scheduled_at p.ended_at)
    && (settings.allow_all_day || not p.all_day)
    && are_paired p.linked_document_id p.linked_file_id

all_day-allowed : (allowed chosen : Bool) → allowed || not (allowed && chosen) ≡ true
all_day-allowed true chosen = refl
all_day-allowed false chosen = refl

check_task-holds :
    (stamp : Text → Option ℕ) (settings : TaskSettings) (f : TaskForm)
    → holds (is_task settings) (check_task stamp settings f) ≡ true
unfolding check_task is_task
check_task-holds stamp settings f =
    let q = is_task settings in
    holds-refuse_if q _ _ _ λ _. holds-refuse_if q _ _ _ λ listed. holds-refuse_if q _ _ _ λ titled.
      holds-refuse_if q _ _ _ λ _. holds-refuse_if q _ _ _ λ _. holds-refuse_if q _ _ _ λ _.
        holds-refuse_if q _ _ _ λ linked. holds-refuse_if q _ _ _ λ owned.
          holds-or_refuse q _ _ _ λ start. holds-bind q _ _ λ stop. holds-refuse_if q _ _ _ λ late.
            let paired = are_paired-filled _ _ linked owned in
            let allowed = all_day-allowed settings.allow_all_day f.all_day in
            ground (arith, listed, titled, late, paired, allowed)

-- A task that passes the checks of the form, under any reading of dates, has a category of the
-- settings, a filled title and no end at or before its start, lasts all day only where the
-- settings allow it, and has a document and a file or neither.
pub check_task-IsTask :
    (stamp : Text → Option ℕ) (settings : TaskSettings) (f : TaskForm) (p : TaskPayload)
    → check_task stamp settings f ≡ passed p
    → is_task settings p ≡ true
check_task-IsTask stamp settings f p e =
    subst (λ m. holds (is_task settings) m ≡ true) e (check_task-holds stamp settings f)
