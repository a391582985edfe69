-- ===== src/Session/AuthSettles.antt =====
-- Sequences of events at the gate in front of every page (components/auth/AuthGate.tsx): how the
-- check of the newest run ends.
use clip_to_doc_archive.Session.{login_url, update_at}
use clip_to_doc_archive.Session.Auth.{
  AuthRun, AuthState, AuthEvent, enter, leave, time_out, answer, auth_start, auth_run, cancel_auth,
  fire_timer, check_auth, auth_step, auth_steps,
}
use clip_to_doc_archive.Session.AuthEnds.{is_enter, is_leave, is_success, ends_newest, steps-append}
use clip_to_doc_archive.Prelude.{
  subst, ℕ, zero, suc, ◌≡◌, refl, sym, ◌⊎◌, inl, inr, Bool, true, false, ◌||◌, Option, List, [],
  ◌∷◌, ◌++◌, arith, if◌then◌else◌, Bool-cases, Option-cases, nat_eq, list_eq, any, contains,
  contains_self, get_elem?,
}
use clip_to_doc_archive.Text.{Text}

-- The page is shown, or the window was sent to the login page for it.
abbrev pub IsSettled : Text → AuthState → Type 0
IsSettled url g = (g.ready ≡ true) ⊎ (contains g.assigned url ≡ true)

-- The newest run waits for its answer.
abbrev IsWaiting : Text → AuthState → Type 0
IsWaiting url g = (rs : List AuthRun) × (g.runs ≡ auth_run url ∷ rs)

fire_timer-IsSettled :
    (url : Text) (i : ℕ) (g : AuthState) (r : AuthRun)
    → IsSettled url g
    → IsSettled url (fire_timer i g r)
fire_timer-IsSettled url i g r (inl shown) = elim (Bool-cases r.timer) [
  | inl up ↦ rw up (inl shown)
  | inr down ↦ rw down (inl shown)
]
fire_timer-IsSettled url i g r (inr sent) = elim (Bool-cases r.timer) [
  | inl up ↦ rw up (inr (ground arith))
  | inr down ↦ rw down (inr sent)
]

check_auth-IsSettled :
    (url : Text) (i : ℕ) (success : Bool) (g : AuthState) (r : AuthRun)
    → IsSettled url g
    → IsSettled url (check_auth i success g r)
check_auth-IsSettled url i success g r s = elim (Bool-cases r.pending) [
  | inl open_request ↦ elim (Bool-cases r.cancelled) [
    | inl off ↦ rw (open_request, off) s
    | inr on ↦ rw (open_request, on) (go s)
  ]
  | inr closed ↦ rw closed s
]
  where
    go :
        IsSettled url g
        → (success || g.ready ≡ true)
          ⊎ (contains (if success then g.assigned else r.next ∷ g.assigned) url ≡ true)
    go (inl shown) = inl (ground arith)
    go (inr sent) = inr (ground arith)

check_auth-ready :
    (i : ℕ) (success : Bool) (g : AuthState) (r : AuthRun)
    → (check_auth i success g r).ready ≡ true
    → g.ready || success ≡ true
check_auth-ready i success g r h = ground arith

fire_timer-ready :
    (i : ℕ) (g : AuthState) (r : AuthRun) → (fire_timer i g r).ready ≡ true → g.ready ≡ true
fire_timer-ready i g r h = ground arith

module _ (encode : Text → Text) where
  step-ready :
      (g : AuthState) (e : AuthEvent)
      → (auth_step encode g e).ready ≡ true
      → g.ready || is_success e ≡ true
  step-ready g (enter path) h = ground arith
  step-ready g leave h = ground arith
  step-ready g (time_out i) h = elim (Option-cases (get_elem? g.runs i)) [
    | inl missing ↦ let k : g.ready ≡ true = rw (missing, auth_step) at h in ground arith
    | inr (r, found) ↦ let k = fire_timer-ready i g r (rw (found, auth_step) at h) in ground arith
  ]
  step-ready g (answer i success) h = elim (Option-cases (get_elem? g.runs i)) [
    | inl missing ↦ let k : g.ready ≡ true = rw (missing, auth_step) at h in ground arith
    | inr (r, found) ↦ check_auth-ready i success g r (rw (found, auth_step) at h)
  ]

  steps-ready :
      (g : AuthState) (es : List AuthEvent)
      → (auth_steps encode g es).ready ≡ true
      → g.ready || any is_success es ≡ true
  steps-ready g [] h = ground arith
  steps-ready g (e ∷ es) h =
      let later = steps-ready (auth_step encode g e) es h in
      elim (Bool-cases (auth_step encode g e).ready) [
        | inl shown ↦ let k = step-ready g e shown in ground arith
        | inr hidden ↦ ground arith
      ]

  -- If the gate shows the page after any events, then among these events the session request of
  -- some run succeeded.
  auth_steps-ready :
      (es : List AuthEvent)
      → (auth_steps encode auth_start es).ready ≡ true
      → any is_success es ≡ true
  auth_steps-ready es h = steps-ready auth_start es h

  step-IsSettled :
      (url : Text) (g : AuthState) (e : AuthEvent)
      → IsSettled url g
      → IsSettled url (auth_step encode g e)
  step-IsSettled url g (enter path) s = s
  step-IsSettled url g leave s = s
  step-IsSettled url g (time_out i) s = elim (Option-cases (get_elem? g.runs i)) [
    | inl missing ↦ rw (missing, auth_step) s
    | inr (r, found) ↦ rw (found, auth_step) (fire_timer-IsSettled url i g r s)
  ]
  step-IsSettled url g (answer i success) s = elim (Option-cases (get_elem? g.runs i)) [
    | inl missing ↦ rw (missing, auth_step) s
    | inr (r, found) ↦ rw (found, auth_step) (check_auth-IsSettled url i success g r s)
  ]

  steps-IsSettled :
      (url : Text) (g : AuthState) (es : List AuthEvent)
      → IsSettled url g
      → IsSettled url (auth_steps encode g es)
  steps-IsSettled url g [] s = s
  steps-IsSettled url g (e ∷ es) s =
      steps-IsSettled url (auth_step encode g e) es (step-IsSettled url g e s)

  -- A waiting run stays the newest until it ends, and then the gate has settled.
  IsWaiting-step :
      (url : Text) (ready : Bool) (assigned : List Text) (rs : List AuthRun) (e : AuthEvent)
      → is_enter e || is_leave e ≡ false
      → (IsWaiting url (
            auth_step encode
              (record { ready = ready; assigned = assigned; runs = auth_run url ∷ rs })
              e)
          × (ends_newest e ≡ false))
        ⊎ IsSettled url (
            auth_step encode
              (record { ready = ready; assigned = assigned; runs = auth_run url ∷ rs })
              e)
  IsWaiting-step url ready assigned rs (enter path) n = cc
  IsWaiting-step url ready assigned rs leave n = cc
  IsWaiting-step url ready assigned rs (time_out zero) n = inr (inr (contains_self url assigned))
  IsWaiting-step url ready assigned rs (answer zero true) n = inr (inl refl)
  IsWaiting-step url ready assigned rs (answer zero false) n =
      inr (inr (contains_self url assigned))
  IsWaiting-step url ready assigned rs (time_out (suc i)) n = elim (Option-cases (get_elem? rs i)) [
    | inl missing ↦ rw (missing, auth_step) (inl ((rs, refl), ground arith))
    | inr (r, found) ↦ elim (Bool-cases r.timer) [
      | inl up ↦
          rw (found, auth_step, up)
            (inl ((update_at i (λ q. record q { timer = false }) rs, refl), ground arith))
      | inr down ↦ rw (found, auth_step, down) (inl ((rs, refl), ground arith))
    ]
  ]
  IsWaiting-step url ready assigned rs (answer (suc i) success) n =
      elim (Option-cases (get_elem? rs i)) [
        | inl missing ↦ rw (missing, auth_step) (inl ((rs, refl), ground arith))
        | inr (r, found) ↦ elim (Bool-cases r.pending) [
          | inl open_request ↦ elim (Bool-cases r.cancelled) [
            | inl off ↦
                rw (found, auth_step, open_request, off)
                  (inl ((update_at i (λ q. record q { pending = false }) rs, refl), ground arith))
            | inr on ↦
                rw (found, auth_step, open_request, on)
                  (inl (
                    (
                      update_at i
                          (λ q. record q { pending = false; resolved = true; timer = false }) rs,
                      refl,
                    ),
                    ground arith,
                  ))
          ]
          | inr closed ↦ rw (found, auth_step, closed) (inl ((rs, refl), ground arith))
        ]
      ]

  waiting_steps :
      (url : Text) (g : AuthState) (es : List AuthEvent)
      → IsWaiting url g
      → any (λ e. is_enter e || is_leave e) es ≡ false
      → any ends_newest es ≡ true
      → IsSettled url (auth_steps encode g es)
  waiting_steps url g [] w n h = cc
  waiting_steps url g (e ∷ es) (rs, first) n h =
      let waiting : AuthState = record {
        ready = g.ready;
        assigned = g.assigned;
        runs = auth_run url ∷ rs;
      } in
      let same : waiting ≡ g =
        λ i. record { ready = g.ready; assigned = g.assigned; runs = sym first i } in
      subst (λ g'. IsSettled url (auth_steps encode (auth_step encode g' e) es)) same
        (elim (IsWaiting-step url g.ready g.assigned rs e (ground arith)) [
          | inl (w, not_yet) ↦
              waiting_steps url (auth_step encode waiting e) es w (ground arith) (ground arith)
          | inr s ↦ steps-IsSettled url (auth_step encode waiting e) es s
        ])

  -- After the gate's effect has run for a path, once this run is answered or its time is over,
  -- before the effect runs again or is cleaned up, the gate shows the page or has sent the window
  -- to the login page for this path; this holds after any earlier events and with late answers of
  -- earlier runs in between.
  pub auth_steps-IsSettled :
      (before after : List AuthEvent) (path : Option Text)
      → any (λ e. is_enter e || is_leave e) after ≡ false
      → any ends_newest after ≡ true
      → IsSettled
          (login_url encode path)
          (auth_steps encode auth_start (before ++ enter path ∷ after))
  auth_steps-IsSettled before after path n h =
      rw (steps-append encode auth_start before (enter path ∷ after)) (
        waiting_steps (login_url encode path)
          (auth_step encode (auth_steps encode auth_start before) (enter path)) after
          (cancel_auth (auth_steps encode auth_start before).runs, refl) n h)
