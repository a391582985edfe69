-- ===== src/Session/Auth.antt =====
-- The gate in front of every page (components/auth/AuthGate.tsx): it asks for the session and
-- shows the page, or goes to the login page on a failure or after eight seconds.
use clip_to_doc_archive.Session.{login_url, update_at}
use clip_to_doc_archive.Prelude.{
  ℕ, Bool, true, false, not, ◌||◌, Option, none, some, List, [], ◌∷◌, if◌then◌else◌, nat_eq,
  list_eq, get_elem?,
}
use clip_to_doc_archive.Text.{Text}

-- One run of the effect.
pub record AuthRun : Type 0 where
  pub next : Text
  pub cancelled : Bool
  pub resolved : Bool
  pub timer : Bool
  pub pending : Bool

-- `assigned` holds the addresses that the window was sent to, the last one first.
pub record AuthState : Type 0 where
  pub ready : Bool
  pub assigned : List Text
  pub runs : List AuthRun

-- The effect runs for a path; it is cleaned up for good; a run's timer fires; its request
-- succeeds (`true`) or fails. Runs are counted from the newest one.
pub data AuthEvent : Type 0 where
  enter : Option Text → AuthEvent
  leave : AuthEvent
  time_out : ℕ → AuthEvent
  answer : ℕ → Bool → AuthEvent

abbrev pub auth_start : AuthState
auth_start = record { ready = false; assigned = []; runs = [] }

abbrev pub auth_run : Text → AuthRun
auth_run next = record {
  next = next;
  cancelled = false;
  resolved = false;
  timer = true;
  pending = true;
}

-- The clean-up of the newest run: `cancelled = true; clearTimeout(timeoutId)`.
abbrev pub cancel_auth : List AuthRun → List AuthRun
cancel_auth [] = []
cancel_auth (r ∷ rs) = record r { cancelled = true; timer = false } ∷ rs

-- The callback of the timer.
abbrev pub fire_timer : ℕ → AuthState → AuthRun → AuthState
fire_timer i g r = if not r.timer then g else record g {
  assigned = if r.cancelled || r.resolved then g.assigned else r.next ∷ g.assigned;
  runs = update_at i (λ q. record q { timer = false }) g.runs;
}

-- What `checkAuth` does behind its request.
abbrev pub check_auth : ℕ → Bool → AuthState → AuthRun → AuthState
check_auth i success g r =
    if not r.pending
    then g
    else if r.cancelled
    then record g { runs = update_at i (λ q. record q { pending = false }) g.runs }
    else record g {
      ready = success || g.ready;
      assigned = if success then g.assigned else r.next ∷ g.assigned;
      runs = update_at i (λ q. record q { pending = false; resolved = true; timer = false }) g.runs;
    }

module _ (encode : Text → Text) where
  abbrev pub auth_step : AuthState → AuthEvent → AuthState
  auth_step g (enter path) = record g {
    runs = auth_run (login_url encode path) ∷ cancel_auth g.runs;
  }
  auth_step g leave = record g { runs = cancel_auth g.runs }
  auth_step g (time_out i) = elim (get_elem? g.runs i) [ none ↦ g | some r ↦ fire_timer i g r ]
  auth_step g (answer i success) = elim (get_elem? g.runs i) [
    | none ↦ g
    | some r ↦ check_auth i success g r
  ]

  abbrev pub auth_steps : AuthState → List AuthEvent → AuthState
  auth_steps g [] = g
  auth_steps g (e ∷ es) = auth_steps (auth_step g e) es
