-- ===== src/Tests/Session.antt =====
-- The session gates on concrete events.
use clip_to_doc_archive.Session.{login_url}
use clip_to_doc_archive.Session.Auth.{
  AuthEvent, enter, leave, time_out, answer, auth_start, auth_steps,
}
use clip_to_doc_archive.Session.AuthEnds.{IsSame, auth_steps-leave}
use clip_to_doc_archive.Session.AuthSettles.{IsSettled, auth_steps-IsSettled}
use clip_to_doc_archive.Session.Roles.{
  SessionUser, RoleEvent, admin, viewer, returned, role_start, role_steps, role_eq,
}
use clip_to_doc_archive.Session.RoleViews.{HasVerdict, view-role_steps}
use clip_to_doc_archive.Prelude.{
  refl, true, false, none, some, List, [], ◌∷◌, ◌++◌, nat_eq, list_eq,
}
use clip_to_doc_archive.Text.{Text, codes}

abbrev same_text : Text → Text
same_text s = s

abbrev slow_failure : List AuthEvent
slow_failure = enter (some (codes "/rules")) ∷ time_out 0 ∷ []

auth_steps-leave_example :
    IsSame
      (auth_steps same_text auth_start slow_failure)
      (auth_steps same_text auth_start (slow_failure ++ leave ∷ answer 0 true ∷ []))
auth_steps-leave_example = auth_steps-leave same_text slow_failure (answer 0 true ∷ []) refl

-- The answer of an earlier run comes late, and the newest run fails.
auth_steps-IsSettled_example : IsSettled (login_url same_text (some (codes "/media"))) (
    auth_steps same_text auth_start
      (slow_failure ++ enter (some (codes "/media")) ∷ answer 1 true ∷ answer 0 false ∷ []))
auth_steps-IsSettled_example =
    auth_steps-IsSettled same_text slow_failure (answer 1 true ∷ answer 0 false ∷ [])
      (some (codes "/media")) refl refl

abbrev an_admin : SessionUser
an_admin = record { id = codes "1"; username = codes "a"; role = admin }

abbrev admin_enters : List RoleEvent
admin_enters =
    RoleEvent.enter none (viewer ∷ [])
    ∷ RoleEvent.enter none (admin ∷ [])
    ∷ returned 1 (some an_admin)
    ∷ returned 0 (some an_admin)
    ∷ []

view-role_steps_example : HasVerdict false (role_steps same_text role_start admin_enters).runs
view-role_steps_example = view-role_steps same_text admin_enters refl
