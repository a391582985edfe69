-- ===== src/Session/AuthEnds.antt =====
-- Sequences of events at the gate in front of every page (components/auth/AuthGate.tsx): what an
-- event changes when the runs of the effect are cancelled.
use clip_to_doc_archive.Session.{update_at, update_at-All, All-get_elem?}
use clip_to_doc_archive.Session.Auth.{
  AuthRun, AuthState, AuthEvent, enter, leave, time_out, answer, auth_start, cancel_auth,
  fire_timer, check_auth, auth_step, auth_steps,
}
use clip_to_doc_archive.Prelude.{
  ℕ, zero, suc, ◌≡◌, refl, ◌∙◌, inl, inr, Bool, true, false, List, [], ◌∷◌, ◌++◌, arith, nat_beq,
  Bool-cases, Option-cases, nat_eq, list_eq, any, All, get_elem?,
}
use clip_to_doc_archive.Text.{Text}

abbrev pub is_enter : AuthEvent → Bool
is_enter (enter path) = true
is_enter _ = false

abbrev pub is_leave : AuthEvent → Bool
is_leave leave = true
is_leave _ = false

-- The request of some run succeeds.
abbrev pub is_success : AuthEvent → Bool
is_success (answer i success) = success
is_success _ = false

-- The newest run is answered, or its time is over.
abbrev pub ends_newest : AuthEvent → Bool
ends_newest (time_out i) = nat_beq i 0
ends_newest (answer i success) = nat_beq i 0
ends_newest _ = false

abbrev IsCancelled : AuthRun → Type 0
IsCancelled r = r.cancelled ≡ true

-- All runs but the newest were cleaned up.
abbrev HasOneRun : List AuthRun → Type 0
HasOneRun [] = Unit
HasOneRun (r ∷ rs) = All IsCancelled rs

-- Neither the page that is shown nor where the window was sent has changed.
abbrev pub IsSame : AuthState → AuthState → Type 0
IsSame g h = (h.ready ≡ g.ready) × (h.assigned ≡ g.assigned)

cancel_auth-All : (rs : List AuthRun) → HasOneRun rs → All IsCancelled (cancel_auth rs)
cancel_auth-All [] h = tt
cancel_auth-All (r ∷ rs) h = (refl, h)

update_at-HasOneRun :
    (i : ℕ) (f : AuthRun → AuthRun) (rs : List AuthRun)
    → ((r : AuthRun) → IsCancelled r → IsCancelled (f r))
    → HasOneRun rs
    → HasOneRun (update_at i f rs)
update_at-HasOneRun i f [] k h = tt
update_at-HasOneRun zero f (r ∷ rs) k h = h
update_at-HasOneRun (suc i) f (r ∷ rs) k h = update_at-All IsCancelled i f rs k h

fire_timer-HasOneRun :
    (i : ℕ) (g : AuthState) (r : AuthRun) → HasOneRun g.runs → HasOneRun (fire_timer i g r).runs
fire_timer-HasOneRun i g r h = elim (Bool-cases r.timer) [
  | inl up ↦ rw up (update_at-HasOneRun i _ g.runs (λ q c. c) h)
  | inr down ↦ rw down h
]

check_auth-HasOneRun :
    (i : ℕ) (success : Bool) (g : AuthState) (r : AuthRun)
    → HasOneRun g.runs
    → HasOneRun (check_auth i success g r).runs
check_auth-HasOneRun i success g r h = elim (Bool-cases r.pending) [
  | inl open_request ↦ elim (Bool-cases r.cancelled) [
    | inl off ↦ rw (open_request, off) (update_at-HasOneRun i _ g.runs (λ q c. c) h)
    | inr on ↦ rw (open_request, on) (update_at-HasOneRun i _ g.runs (λ q c. c) h)
  ]
  | inr closed ↦ rw closed h
]

module _ (encode : Text → Text) where
  step-HasOneRun :
      (g : AuthState) (e : AuthEvent) → HasOneRun g.runs → HasOneRun (auth_step encode g e).runs
  step-HasOneRun g (enter path) h = cancel_auth-All g.runs h
  step-HasOneRun g leave h = left g.runs h
    where
      left : (rs : List AuthRun) → HasOneRun rs → HasOneRun (cancel_auth rs)
      left [] h = tt
      left (r ∷ rs) h = h
  step-HasOneRun g (time_out i) h = elim (Option-cases (get_elem? g.runs i)) [
    | inl missing ↦ rw (missing, auth_step) h
    | inr (r, found) ↦ rw (found, auth_step) (fire_timer-HasOneRun i g r h)
  ]
  step-HasOneRun g (answer i success) h = elim (Option-cases (get_elem? g.runs i)) [
    | inl missing ↦ rw (missing, auth_step) h
    | inr (r, found) ↦ rw (found, auth_step) (check_auth-HasOneRun i success g r h)
  ]

  steps-HasOneRun :
      (g : AuthState) (es : List AuthEvent)
      → HasOneRun g.runs
      → HasOneRun (auth_steps encode g es).runs
  steps-HasOneRun g [] h = h
  steps-HasOneRun g (e ∷ es) h = steps-HasOneRun (auth_step encode g e) es (step-HasOneRun g e h)

  pub steps-append :
      (g : AuthState) (es fs : List AuthEvent)
      → auth_steps encode g (es ++ fs) ≡ auth_steps encode (auth_steps encode g es) fs
  steps-append g [] fs = refl
  steps-append g (e ∷ es) fs = steps-append (auth_step encode g e) es fs

  -- With all runs cancelled, an event that starts no run changes nothing that is seen.
  quiet_step :
      (g : AuthState) (e : AuthEvent)
      → is_enter e ≡ false
      → All IsCancelled g.runs
      → IsSame g (auth_step encode g e) × All IsCancelled (auth_step encode g e).runs
  quiet_step g (enter path) n h = cc
  quiet_step g leave n h = ((refl, refl), left g.runs h)
    where
      left : (rs : List AuthRun) → All IsCancelled rs → All IsCancelled (cancel_auth rs)
      left [] h = tt
      left (r ∷ rs) h = (refl, h.1)
  quiet_step g (time_out i) n h = elim (Option-cases (get_elem? g.runs i)) [
    | inl missing ↦ rw (missing, auth_step) ((refl, refl), h)
    | inr (r, found) ↦ elim (Bool-cases r.timer) [
      | inl up ↦
          let off : r.cancelled ≡ true = All-get_elem? IsCancelled i g.runs r h found in
          rw (found, up, off, auth_step, fire_timer)
            ((refl, refl), update_at-All IsCancelled i _ g.runs (λ q c. c) h)
      | inr down ↦ rw (found, down, auth_step) ((refl, refl), h)
    ]
  ]
  quiet_step g (answer i success) n h = elim (Option-cases (get_elem? g.runs i)) [
    | inl missing ↦ rw (missing, auth_step) ((refl, refl), h)
    | inr (r, found) ↦ elim (Bool-cases r.pending) [
      | inl open_request ↦
          let off : r.cancelled ≡ true = All-get_elem? IsCancelled i g.runs r h found in
          rw (found, open_request, off, auth_step)
            ((refl, refl), update_at-All IsCancelled i _ g.runs (λ q c. c) h)
      | inr closed ↦ rw (found, closed, auth_step) ((refl, refl), h)
    ]
  ]

  quiet_steps :
      (g : AuthState) (es : List AuthEvent)
      → any is_enter es ≡ false
      → All IsCancelled g.runs
      → IsSame g (auth_steps encode g es)
  quiet_steps g [] n h = (refl, refl)
  quiet_steps g (e ∷ es) n h =
      let ((r, a), c) = quiet_step g e (ground arith) h in
      let (r', a') = quiet_steps (auth_step encode g e) es (ground arith) c in (r' ∙ r, a' ∙ a)

  -- Once the gate's effect is cleaned up for good, no timer and no answer of any of its runs
  -- changes whether the page is shown or where the window was sent.
  pub auth_steps-leave :
      (before after : List AuthEvent)
      → any is_enter after ≡ false
      → IsSame
          (auth_steps encode auth_start before)
          (auth_steps encode auth_start (before ++ leave ∷ after))
  auth_steps-leave before after n = rw (steps-append auth_start before (leave ∷ after)) (
      quiet_steps (auth_step encode (auth_steps encode auth_start before) leave) after n
        (cancel_auth-All _ (steps-HasOneRun auth_start before tt)))
