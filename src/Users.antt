-- ===== src/Users.antt =====
-- The administration of users (components/admin/AdminUserManager.tsx): the password policy, and the
-- handlers up to their requests. Lengths count UTF-16 code units, as `length` does.
pub mod Requests
use clip_to_doc_archive.Json.{decimal}
use mathlib.Core.Option
use clip_to_doc_archive.Session.Roles.{UserRole, role_eq, viewer}
use clip_to_doc_archive.Prelude.{
  ℕ, ◌⊎◌, inl, inr, Bool, true, false, not, ◌&&◌, ◌||◌, Option, none, some, [], ◌++◌, ltb, leb,
  if◌then◌else◌, ◌==◌, nat_eq, list_eq, length, is_empty, any,
}
use clip_to_doc_archive.Text.{Text, codes, trim}

pub record SecurityPolicy : Type 0 where
  pub scope : Text
  pub password_min_length : ℕ
  pub require_uppercase : Bool
  pub require_lowercase : Bool
  pub require_digit : Bool
  pub require_special : Bool
  pub max_failed_attempts : ℕ
  pub lockout_seconds : ℕ
  pub auto_login_days : ℕ
  pub updated_at : Option Text

abbrev pub default_security_policy : SecurityPolicy
default_security_policy = record {
  scope = codes "auth";
  password_min_length = 10;
  require_uppercase = true;
  require_lowercase = true;
  require_digit = true;
  require_special = true;
  max_failed_attempts = 5;
  lockout_seconds = 900;
  auto_login_days = 7;
  updated_at = none;
}

abbrev pub is_upper_letter : ℕ → Bool
is_upper_letter c = leb b'A' c && leb c b'Z'

abbrev pub is_lower_letter : ℕ → Bool
is_lower_letter c = leb b'a' c && leb c b'z'

abbrev pub is_digit : ℕ → Bool
is_digit c = leb b'0' c && leb c b'9'

abbrev pub is_special : ℕ → Bool
is_special c = not (is_upper_letter c || is_lower_letter c || is_digit c)

-- `validatePasswordInput`: the message of the first rule that is broken.
unfoldable pub validate_password_input : Text → SecurityPolicy → Option Text
validate_password_input password policy =
    if ltb (length password) policy.password_min_length
    then some (codes "비밀번호는 최소 " ++ (decimal policy.password_min_length ++ codes "자 이상이어야 합니다."))
    else if policy.require_uppercase && not (any is_upper_letter password)
    then some (codes "영문 대문자를 1자 이상 포함해야 합니다.")
    else if policy.require_lowercase && not (any is_lower_letter password)
    then some (codes "영문 소문자를 1자 이상 포함해야 합니다.")
    else if policy.require_digit && not (any is_digit password)
    then some (codes "숫자를 1자 이상 포함해야 합니다.")
    else if policy.require_special && not (any is_special password)
    then some (codes "특수문자를 1자 이상 포함해야 합니다.")
    else none

pub record UserSummary : Type 0 where
  pub id : Text
  pub username : Text
  pub role : UserRole
  pub is_active : Bool
  pub failed_login_attempts : ℕ
  pub locked_until : Option Text
  pub created_at : Text
  pub last_login_at : Option Text

pub record UsersState : Type 0 where
  -- Empty until `/auth/me` is answered, and where it fails.
  pub current_user_id : Text
  pub busy_user_id : Option Text
  pub error : Text
  pub message : Text
  pub creating : Bool
  pub policy_loading : Bool
  pub policy_saving : Bool
  pub policy : SecurityPolicy
  pub policy_draft : SecurityPolicy
  pub new_username : Text
  pub new_password : Text
  pub new_password_confirm : Text
  pub new_role : UserRole

-- The requests, with their bodies.
pub data UserRequest : Type 0 where
  set_role : (user_id : Text) → UserRole → UserRequest
  set_active : (user_id : Text) → Bool → UserRequest
  unlock : (user_id : Text) → UserRequest
  set_password : (user_id password password_confirm : Text) → UserRequest
  create : (username password password_confirm : Text) → UserRole → UserRequest
  save_policy : SecurityPolicy → UserRequest
  delete : (user_id : Text) → UserRequest

abbrev pub refuse : Text → UsersState → UsersState × Option UserRequest
refuse message s = (record s { error = message }, none)

-- `updateUser` up to its request.
abbrev pub update_user : Text → UserRequest → UsersState → UsersState × Option UserRequest
update_user user_id request s =
    (record s { busy_user_id = some user_id; error = []; message = [] }, some request)

-- `resetPassword`; the drafts are those of the user, empty where there is none.
unfoldable pub reset_password :
    UserSummary → (draft confirm_draft : Text) → UsersState → UsersState × Option UserRequest
unfolding trim validate_password_input
reset_password user draft confirm_draft s =
    let password = trim draft in
    let confirm_password = trim confirm_draft in
    if ltb (length password) s.policy.password_min_length
    then refuse (codes "비밀번호는 " ++ (decimal s.policy.password_min_length ++ codes "자 이상이어야 합니다.")) s
    else if not (password == confirm_password)
    then refuse (codes "비밀번호 확인 값이 일치하지 않습니다.") s
    else elim (validate_password_input password s.policy) [
      | some password_error ↦ refuse password_error s
      | none ↦ update_user user.id (set_password user.id password confirm_password) s
    ]

unfoldable pub create_user : UsersState → UsersState × Option UserRequest
unfolding trim validate_password_input
create_user s =
    if is_empty (trim s.new_username) || is_empty (trim s.new_password)
    then refuse (codes "아이디/비밀번호를 입력하세요.") s
    else if not (s.new_password == s.new_password_confirm)
    then refuse (codes "비밀번호 확인 값이 일치하지 않습니다.") s
    else elim (validate_password_input s.new_password s.policy) [
      | some password_error ↦ refuse password_error s
      | none ↦ (
        record s { creating = true; error = []; message = [] },
        some (create (trim s.new_username) s.new_password s.new_password_confirm s.new_role),
      )
    ]

-- What follows a user that was created, up to the loading of the list; `username` is the name that
-- the handler was made with.
abbrev pub created_user : (username : Text) → UsersState → UsersState
created_user username s = record s {
  message = codes "사용자 생성 완료: " ++ trim username;
  new_username = [];
  new_password = [];
  new_password_confirm = [];
  new_role = viewer;
}

unfoldable pub save_security_policy : UsersState → UsersState × Option UserRequest
save_security_policy s =
    if ltb s.policy_draft.password_min_length 6
    then refuse (codes "최소 길이는 6 이상이어야 합니다.") s
    else if ltb s.policy_draft.max_failed_attempts 1
    then refuse (codes "로그인 실패 허용 횟수는 1 이상이어야 합니다.") s
    else if ltb s.policy_draft.lockout_seconds 60
    then refuse (codes "잠금 시간은 60초 이상이어야 합니다.") s
    else if ltb s.policy_draft.auto_login_days 1 || ltb 365 s.policy_draft.auto_login_days
    then refuse (codes "자동 로그인 기간은 1~365일 사이여야 합니다.") s
    else (
      record s { policy_saving = true; error = []; message = [] },
      some (save_policy s.policy_draft),
    )

-- `normalizeSecurityPolicy` on a policy with all its properties.
abbrev pub normalize_security_policy : SecurityPolicy → SecurityPolicy
normalize_security_policy p = record p {
  auto_login_days =
      if leb 1 p.auto_login_days && leb p.auto_login_days 365 then p.auto_login_days else 7;
}

-- The answer to a policy that was sent; a failure carries its message.
abbrev pub saved_policy : Text ⊎ SecurityPolicy → UsersState → UsersState
saved_policy (inl failure) s = record s { error = failure; policy_saving = false }
saved_policy (inr saved) s = record s {
  policy = normalize_security_policy saved;
  policy_draft = normalize_security_policy saved;
  message = codes "보안 정책 저장 완료";
  policy_saving = false;
}

-- `deleteUser`, with the answer to the question that it asks.
unfoldable pub delete_user :
    UserSummary → (confirmed : Bool) → UsersState → UsersState × Option UserRequest
delete_user user confirmed s =
    if user.id == s.current_user_id
    then refuse (codes "현재 로그인한 관리자 계정은 삭제할 수 없습니다.") s
    else if not confirmed
    then (s, none)
    else (record s { busy_user_id = some user.id; error = []; message = [] }, some (delete user.id))

-- What an administrator presses; `draft` is `roleDrafts[user.id]`, the other drafts are texts.
pub data UserAction : Type 0 where
  changes_role : UserSummary → (draft : Option UserRole) → UserAction
  toggles_active : UserSummary → UserAction
  unlocks : UserSummary → UserAction
  resets : UserSummary → (draft confirm_draft : Text) → UserAction
  deletes : UserSummary → (confirmed : Bool) → UserAction
  creates : UserAction
  saves : UserAction

-- `busyUserId === user.id`
abbrev pub is_busy : Text → UsersState → Bool
is_busy user_id s = elim s.busy_user_id [ none ↦ false | some id ↦ id == user_id ]

abbrev pub is_drafted : Option UserRole → UserRole → Bool
is_drafted none role = false
is_drafted (some draft) role = draft == role

-- Whether the button is enabled. The one that deletes the own account is disabled, too; the handler
-- checks it again.
abbrev pub is_offered : UserAction → UsersState → Bool
is_offered (changes_role user draft) s = not (is_busy user.id s) && not (is_drafted draft user.role)
is_offered (toggles_active user) s = not (is_busy user.id s)
is_offered (unlocks user) s =
    not (is_busy user.id s) && (elim user.locked_until [ none ↦ false | some t ↦ not (is_empty t) ])
is_offered (resets user draft confirm_draft) s =
    not (is_busy user.id s) && not (is_empty (trim draft)) && not (is_empty (trim confirm_draft))
is_offered (deletes user confirmed) s = not (is_busy user.id s)
is_offered creates s = not s.creating
is_offered saves s = not s.policy_saving && not s.policy_loading

-- What the button does, up to its request.
unfoldable pub handle : UserAction → UsersState → UsersState × Option UserRequest
unfolding reset_password create_user save_security_policy delete_user
handle (changes_role user draft) s =
    update_user user.id (set_role user.id (Option.get_or draft user.role)) s
handle (toggles_active user) s = update_user user.id (set_active user.id (not user.is_active)) s
handle (unlocks user) s = update_user user.id (unlock user.id) s
handle (resets user draft confirm_draft) s = reset_password user draft confirm_draft s
handle (deletes user confirmed) s = delete_user user confirmed s
handle creates s = create_user s
handle saves s = save_security_policy s

unfoldable pub act : UserAction → UsersState → UsersState × Option UserRequest
unfolding handle
act a s = if is_offered a s then handle a s else (s, none)
