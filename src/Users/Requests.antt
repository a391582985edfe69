-- ===== src/Users/Requests.antt =====
-- Laws of the requests of the administration of users (components/admin/AdminUserManager.tsx).
use mathlib.Core.Option.{some-injective}
use clip_to_doc_archive.Users.{
  SecurityPolicy, is_upper_letter, is_lower_letter, is_digit, is_special, validate_password_input,
  UserSummary, UsersState, UserRequest, set_password, create, save_policy, delete, reset_password,
  create_user, save_security_policy, delete_user, set_role, set_active, unlock, UserAction,
  changes_role, toggles_active, unlocks, resets, deletes, creates, saves, is_busy, is_offered,
  handle, act,
}
use clip_to_doc_archive.Prelude.{
  subst, refl, Bool-cases, false, ℕ, ◌≡◌, ◌↔◌, inl, inr, Bool, true, not, ◌&&◌, ◌||◌, Option, none,
  some, arith, leb, Option-cases, ◌==◌, nat_eq, list_eq, length, is_empty, any,
}
use clip_to_doc_archive.Text.{Text, trim}

-- A rule that is required holds.
abbrev pub meets : Bool → (ℕ → Bool) → Text → Bool
meets required p password = not required || any p password

-- The password keeps every rule of the policy.
abbrev pub keeps_policy : Text → SecurityPolicy → Bool
keeps_policy password policy =
    leb policy.password_min_length (length password)
    && meets policy.require_uppercase is_upper_letter password
    && meets policy.require_lowercase is_lower_letter password
    && meets policy.require_digit is_digit password
    && meets policy.require_special is_special password

-- What the service may be asked: about a user only while the page does not mark this user as busy, a
-- password that keeps the policy and is confirmed, a policy in its bounds, and the deletion of a user
-- who is not the one that the page knows as signed in.
abbrev pub is_proper : UsersState → UserRequest → Bool
is_proper s (set_role user_id role) = not (is_busy user_id s)
is_proper s (set_active user_id active) = not (is_busy user_id s)
is_proper s (unlock user_id) = not (is_busy user_id s)
is_proper s (set_password user_id password confirm) =
    not (is_busy user_id s) && keeps_policy password s.policy && password == confirm
is_proper s (delete user_id) = not (is_busy user_id s) && not (user_id == s.current_user_id)
is_proper s (create username password confirm role) =
    not s.creating
    && not (is_empty username)
    && keeps_policy password s.policy
    && password == confirm
is_proper s (save_policy p) =
    not s.policy_saving
    && leb 6 p.password_min_length
    && leb 1 p.max_failed_attempts
    && leb 60 p.lockout_seconds
    && leb 1 p.auto_login_days
    && leb p.auto_login_days 365

-- A password passes the validation exactly if it has at least the policy's length and a character
-- of each kind that the policy requires.
pub validate-keeps_policy :
    (password : Text) (policy : SecurityPolicy)
    → (validate_password_input password policy ≡ none) ↔ (keeps_policy password policy ≡ true)
unfolding validate_password_input
validate-keeps_policy password policy = ground arith

-- Whether the request of a handler, if it makes one, is proper.
abbrev request_is_proper : UsersState → Option UserRequest → Bool
request_is_proper s none = true
request_is_proper s (some r) = is_proper s r

proper_of :
    (s : UsersState) (o : Option UserRequest) (r : UserRequest)
    → request_is_proper s o ≡ true
    → o ≡ some r
    → is_proper s r ≡ true
proper_of s none r h e = cc
proper_of s (some q) r h e = subst (λ x. is_proper s x ≡ true) (some-injective q r e) h

reset_lem :
    (user : UserSummary) (draft confirm : Text) (s : UsersState)
    → is_busy user.id s ≡ false
    → request_is_proper s (reset_password user draft confirm s).1 ≡ true
unfolding reset_password
reset_lem user draft confirm s free =
    elim (Option-cases (validate_password_input (trim draft) s.policy)) [
      | inr (e, refused) ↦ rw refused (ground arith)
      | inl fine ↦
          let keeps = (validate-keeps_policy (trim draft) s.policy).0 fine in rw fine (ground arith)
    ]

create_lem : (s : UsersState) → s.creating ≡ false → request_is_proper s (create_user s).1 ≡ true
unfolding create_user
create_lem s free = elim (Option-cases (validate_password_input s.new_password s.policy)) [
  | inr (e, refused) ↦ rw refused (ground arith)
  | inl fine ↦
      let keeps = (validate-keeps_policy s.new_password s.policy).0 fine in rw fine (ground arith)
]

save_lem :
    (s : UsersState)
    → s.policy_saving ≡ false
    → request_is_proper s (save_security_policy s).1 ≡ true
unfolding save_security_policy
save_lem s free = ground arith

delete_lem :
    (user : UserSummary) (confirmed : Bool) (s : UsersState)
    → is_busy user.id s ≡ false
    → request_is_proper s (delete_user user confirmed s).1 ≡ true
unfolding delete_user
delete_lem user confirmed s free = ground arith

handle_lem :
    (a : UserAction) (s : UsersState)
    → is_offered a s ≡ true
    → request_is_proper s (handle a s).1 ≡ true
unfolding handle
handle_lem (changes_role user draft) s o = ground arith
handle_lem (toggles_active user) s o = ground arith
handle_lem (unlocks user) s o = ground arith
handle_lem (resets user draft confirm) s o = reset_lem user draft confirm s (ground arith)
handle_lem (deletes user confirmed) s o = delete_lem user confirmed s (ground arith)
handle_lem creates s o = create_lem s (ground arith)
handle_lem saves s o = save_lem s (ground arith)

act_lem : (a : UserAction) (s : UsersState) → request_is_proper s (act a s).1 ≡ true
unfolding act
act_lem a s = elim (Bool-cases (is_offered a s)) [
  | inl on ↦ rw on (handle_lem a s on)
  | inr off ↦ rw off refl
]

-- A request that any of the buttons makes is proper: it is about a user only while the page does
-- not mark this user as busy, a new or a reset password keeps the policy in force and equals its
-- confirmation, a new user has a name, a policy is saved only within its bounds, and a deletion is
-- never of the user that the page holds as signed in, which is nobody until /auth/me is answered.
pub act-is_proper :
    (action : UserAction) (s : UsersState) (request : UserRequest)
    → (act action s).1 ≡ some request
    → is_proper s request ≡ true
act-is_proper action s request e = proper_of s (act action s).1 request (act_lem action s) e
