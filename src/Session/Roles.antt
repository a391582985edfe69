-- ===== src/Session/Roles.antt =====
-- The gate in front of a page that only some roles may see (components/auth/RoleGate.tsx), and the
-- user of the session (lib/auth.ts): a request that fails gives no user.
use clip_to_doc_archive.Session.{login_url, update_at}
use clip_to_doc_archive.Prelude.{
  ℕ, ◌≡◌, ◌↔◌, Bool, true, false, not, Option, none, some, List, [], ◌∷◌, arith, if◌then◌else◌, Eq,
  nat_eq, list_eq, contains, get_elem?,
}
use clip_to_doc_archive.Text.{Text}

pub data UserRole : Type 0 where
  admin editor reviewer viewer : UserRole

abbrev role_beq : UserRole → UserRole → Bool
role_beq admin admin = true
role_beq editor editor = true
role_beq reviewer reviewer = true
role_beq viewer viewer = true
role_beq _ _ = false

pub role_beq_iff : (a b : UserRole) → (role_beq a b ≡ true) ↔ (a ≡ b)
role_beq_iff a b = ground arith

instance abbrev pub role_eq : Eq UserRole
role_eq = record { beq = role_beq; beq_iff = role_beq_iff }

pub record SessionUser : Type 0 where
  pub id : Text
  pub username : Text
  pub role : UserRole

-- One run of the effect: `answer` is what `getCurrentUser` has returned, if it has.
pub record RoleRun : Type 0 where
  pub next : Text
  pub allowed_roles : List UserRole
  pub cancelled : Bool
  pub answer : Option (Option SessionUser)

pub record RoleState : Type 0 where
  pub loading : Bool
  pub forbidden : Bool
  pub assigned : List Text
  pub runs : List RoleRun

pub data RoleView : Type 0 where
  checking refused page : RoleView

abbrev pub view : RoleState → RoleView
view g = if g.loading then checking else if g.forbidden then refused else page

-- The effect runs for a path and the roles that are allowed; it is cleaned up for good; the
-- request of a run returns. Runs are counted from the newest one.
pub data RoleEvent : Type 0 where
  enter : Option Text → List UserRole → RoleEvent
  leave : RoleEvent
  returned : ℕ → Option SessionUser → RoleEvent

abbrev pub role_start : RoleState
role_start = record { loading = true; forbidden = false; assigned = []; runs = [] }

abbrev pub role_run : Text → List UserRole → RoleRun
role_run next allowed_roles = record {
  next = next;
  allowed_roles = allowed_roles;
  cancelled = false;
  answer = none;
}

abbrev pub cancel_role : List RoleRun → List RoleRun
cancel_role [] = []
cancel_role (r ∷ rs) = record r { cancelled = true } ∷ rs

-- What `checkRole` does behind its request.
abbrev pub settle_role : RoleState → RoleRun → Option SessionUser → RoleState
settle_role g r none = record g { assigned = r.next ∷ g.assigned }
settle_role g r (some user) = record g {
  forbidden = not (contains r.allowed_roles user.role);
  loading = false;
}

abbrev pub check_role : ℕ → Option SessionUser → RoleState → RoleRun → RoleState
check_role i user g r = elim r.answer [
  | some earlier ↦ g
  | none ↦
      let g' = record g { runs = update_at i (λ q. record q { answer = some user }) g.runs } in
      if r.cancelled then g' else settle_role g' r user
]

module _ (encode : Text → Text) where
  abbrev pub role_step : RoleState → RoleEvent → RoleState
  role_step g (enter path allowed_roles) = record g {
    loading = true;
    runs = role_run (login_url encode path) allowed_roles ∷ cancel_role g.runs;
  }
  role_step g leave = record g { runs = cancel_role g.runs }
  role_step g (returned i user) = elim (get_elem? g.runs i) [
    | none ↦ g
    | some r ↦ check_role i user g r
  ]

  abbrev pub role_steps : RoleState → List RoleEvent → RoleState
  role_steps g [] = g
  role_steps g (e ∷ es) = role_steps (role_step g e) es
