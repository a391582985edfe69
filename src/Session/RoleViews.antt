-- ===== src/Session/RoleViews.antt =====
-- Sequences of events at the gate for roles (components/auth/RoleGate.tsx): what it shows.
use mathlib.Core.Option.{some-injective}
use clip_to_doc_archive.Session.{update_at, update_at-All, All-get_elem?}
use clip_to_doc_archive.Session.Roles.{
  SessionUser, RoleRun, RoleState, RoleEvent, enter, leave, returned, role_start, cancel_role,
  settle_role, check_role, role_step, role_steps, view, page, role_eq,
}
use clip_to_doc_archive.Prelude.{
  subst, ℕ, zero, suc, ◌≡◌, refl, sym, ap, ◌≢◌, ◌⊎◌, inl, inr, Bool, true, false, not, Option, none,
  some, List, [], ◌∷◌, arith, Bool-cases, Option-cases, nat_eq, list_eq, All, contains, get_elem?,
}
use clip_to_doc_archive.Text.{Text}

abbrev IsCancelled : RoleRun → Type 0
IsCancelled r = r.cancelled ≡ true

-- The newest run was answered with a user, and the verdict is the one on this user's role.
abbrev pub HasVerdict : Bool → List RoleRun → Type 0
HasVerdict forbidden [] = ⊥
HasVerdict forbidden (r ∷ rs) =
    (user : SessionUser) × (r.answer ≡ some (some user))
    × (forbidden ≡ not (contains r.allowed_roles user.role))

abbrev OldCancelled : List RoleRun → Type 0
OldCancelled [] = Unit
OldCancelled (r ∷ rs) = All IsCancelled rs

-- Runs behind the newest are cancelled, and a state that no longer loads has its verdict.
pub record IsSound (g : RoleState) : Type 0 where
  pub old : OldCancelled g.runs
  pub verdict : (g.loading ≡ true) ⊎ HasVerdict g.forbidden g.runs

cancel_role-All : (rs : List RoleRun) → OldCancelled rs → All IsCancelled (cancel_role rs)
cancel_role-All [] h = tt
cancel_role-All (r ∷ rs) h = (refl, h)

HasVerdict-cancel_role :
    (f : Bool) (rs : List RoleRun) → HasVerdict f rs → HasVerdict f (cancel_role rs)
HasVerdict-cancel_role f [] h = absurd h
HasVerdict-cancel_role f (r ∷ rs) h = h

OldCancelled-cancel_role : (rs : List RoleRun) → OldCancelled rs → OldCancelled (cancel_role rs)
OldCancelled-cancel_role [] h = tt
OldCancelled-cancel_role (r ∷ rs) h = h

-- An answer to a run that is found.
check_role-IsSound :
    (i : ℕ) (user : Option SessionUser) (loading forbidden : Bool) (assigned : List Text)
    (runs : List RoleRun) (r : RoleRun)
    → get_elem? runs i ≡ some r
    → IsSound
        (record { loading = loading; forbidden = forbidden; assigned = assigned; runs = runs })
    → IsSound (
        check_role i user
          (record { loading = loading; forbidden = forbidden; assigned = assigned; runs = runs })
          r)
check_role-IsSound i user loading forbidden assigned runs r found s = elim (Option-cases r.answer) [
  | inr (earlier, answered) ↦ rw (answered, check_role) s
  | inl waiting ↦ elim (Bool-cases r.cancelled) [
    | inl off ↦
        rw (waiting, off, check_role)
          (record { old = kept i runs s.old; verdict = same i runs found waiting s.verdict })
    | inr on ↦
        rw (waiting, on, check_role) (answered_now i runs found on waiting s.old s.verdict user)
  ]
]
  where
    kept :
        (n : ℕ) (rs : List RoleRun)
        → OldCancelled rs
        → OldCancelled (update_at n (λ q. record q { answer = some user }) rs)
    kept n [] h = tt
    kept zero (q ∷ qs) h = h
    kept (suc n) (q ∷ qs) h = update_at-All IsCancelled n _ qs (λ x c. c) h

    same :
        (n : ℕ) (rs : List RoleRun)
        → get_elem? rs n ≡ some r
        → r.answer ≡ none
        → (loading ≡ true) ⊎ HasVerdict forbidden rs
        → (loading ≡ true)
          ⊎ HasVerdict forbidden (update_at n (λ q. record q { answer = some user }) rs)
    same n rs f w (inl l) = inl l
    same n [] f w (inr h) = inr h
    same zero (q ∷ qs) f w (inr (u, a, v)) = cc
    same (suc n) (q ∷ qs) f w (inr h) = inr h

    answered_now :
        (n : ℕ) (rs : List RoleRun)
        → get_elem? rs n ≡ some r
        → r.cancelled ≡ false
        → r.answer ≡ none
        → OldCancelled rs
        → (loading ≡ true) ⊎ HasVerdict forbidden rs
        → (answer : Option SessionUser)
        → IsSound (
            settle_role
              (record {
                loading = loading;
                forbidden = forbidden;
                assigned = assigned;
                runs = update_at n (λ q. record q { answer = some answer }) rs;
              })
              r
              answer)
    answered_now n [] f on w h v answer = cc
    answered_now (suc n) (q ∷ qs) f on w h v answer =
        let off : r.cancelled ≡ true = All-get_elem? IsCancelled n qs r h f in cc
    answered_now zero (q ∷ qs) f on w h v answer = settled answer
      where
        still_loading :
            (loading ≡ true) ⊎ HasVerdict forbidden (q ∷ qs)
            → (loading ≡ true) ⊎ HasVerdict forbidden (record q { answer = some none } ∷ qs)
        still_loading (inl l) = inl l
        still_loading (inr (u, a, e)) = cc

        settled :
            (a : Option SessionUser)
            → IsSound (
                settle_role
                  (record {
                    loading = loading;
                    forbidden = forbidden;
                    assigned = assigned;
                    runs = record q { answer = some a } ∷ qs;
                  })
                  r
                  a)
        settled none = record { old = h; verdict = still_loading v }
        settled (some u) = record {
          old = h;
          verdict = inr (
            u,
            refl,
            ap (λ x. not (contains x.allowed_roles u.role)) (sym (some-injective q r f)),
          );
        }

loading_view : (g : RoleState) → g.loading ≡ true → view g ≢ page
loading_view g l h = ground arith

page_view : (g : RoleState) → view g ≡ page → g.forbidden ≡ false
page_view g h = ground arith

module _ (encode : Text → Text) where
  Step-IsSound : (g : RoleState) (e : RoleEvent) → IsSound g → IsSound (role_step encode g e)
  Step-IsSound g (enter path allowed) s = record {
    old = cancel_role-All g.runs s.old;
    verdict = inl refl;
  }
  Step-IsSound g leave s = record {
    old = OldCancelled-cancel_role g.runs s.old;
    verdict = elim s.verdict [
      | inl l ↦ inl l
      | inr h ↦ inr (HasVerdict-cancel_role g.forbidden g.runs h)
    ];
  }
  Step-IsSound g (returned i user) s = elim (Option-cases (get_elem? g.runs i)) [
    | inl missing ↦ rw (missing, role_step) s
    | inr (r, found) ↦
        rw (found, role_step)
          (check_role-IsSound i user g.loading g.forbidden g.assigned g.runs r found s)
  ]

  steps-IsSound :
      (g : RoleState) (es : List RoleEvent) → IsSound g → IsSound (role_steps encode g es)
  steps-IsSound g [] s = s
  steps-IsSound g (e ∷ es) s = steps-IsSound (role_step encode g e) es (Step-IsSound g e s)

  -- Whatever the order of runs, clean-ups and answers, if the role gate shows the page, then the
  -- newest run of its effect was answered with a user whose role is among the roles that this run
  -- allows.
  pub view-role_steps :
      (es : List RoleEvent)
      → view (role_steps encode role_start es) ≡ page
      → HasVerdict false (role_steps encode role_start es).runs
  view-role_steps es shown =
      let s = steps-IsSound role_start es (record { old = tt; verdict = inl refl }) in
      elim s.verdict [
        | inl l ↦ absurd (loading_view (role_steps encode role_start es) l shown)
        | inr h ↦
            subst (λ f. HasVerdict f (role_steps encode role_start es).runs)
              (page_view (role_steps encode role_start es) shown) h
      ]
