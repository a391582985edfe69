-- ===== src/Tests/Service.antt =====
-- The pages that ask the service, on concrete inputs.
use clip_to_doc_archive.Json.{Value}
use clip_to_doc_archive.Session.Roles.{viewer}
use clip_to_doc_archive.Users.{
  default_security_policy, validate_password_input, UsersState, UserRequest, create, creates, act,
}
use clip_to_doc_archive.Users.Requests.{
  keeps_policy, is_proper, validate-keeps_policy, act-is_proper,
}
use clip_to_doc_archive.Comments.{Comment, CommentsState}
use clip_to_doc_archive.Api.{Response, upload_outcome}
use clip_to_doc_archive.Api.Outcomes.{IsUploaded, upload_outcome-IsUploaded}
use clip_to_doc_archive.Prelude.{
  ◌≡◌, refl, ◌↔◌, true, false, Option, none, some, [], ◌∷◌, nat_eq, list_eq,
}
use clip_to_doc_archive.Text.{Text, codes, trim}

abbrev with_new_user : UsersState
with_new_user = record {
  current_user_id = codes "1";
  busy_user_id = none;
  error = [];
  message = [];
  creating = false;
  policy_loading = false;
  policy_saving = false;
  policy = default_security_policy;
  policy_draft = default_security_policy;
  new_username = codes " kim ";
  new_password = codes "Abcdefgh1!";
  new_password_confirm = codes "Abcdefgh1!";
  new_role = viewer;
}

abbrev new_user_request : UserRequest
new_user_request = create (codes "kim") (codes "Abcdefgh1!") (codes "Abcdefgh1!") viewer

new_user_sent : (act creates with_new_user).1 ≡ some new_user_request
unfolding act trim
new_user_sent = refl

act-is_proper_example : is_proper with_new_user new_user_request ≡ true
act-is_proper_example = act-is_proper creates with_new_user new_user_request new_user_sent

abbrev a_comment : Text → Comment
a_comment id = record {
  id = id;
  document_id = codes "d";
  content = id;
  created_at = [];
  updated_at = [];
  created_by = none;
  created_by_username = none;
  is_edited = false;
  can_edit = true;
  can_delete = true;
}

abbrev two_comments : CommentsState
two_comments = record {
  items = a_comment (codes "a") ∷ a_comment (codes "b") ∷ [];
  loading = false;
  error = [];
  notice = [];
  submitting = true;
  new_content = [];
  editing_id = none;
  editing_content = [];
}

abbrev no_json : Text → Option Value
no_json s = none

abbrev no_text : Value → Text
no_text v = []

abbrev bad_gateway : Response
bad_gateway = record { ok = false; status = 502; text = some (codes "Bad  Gateway\n") }

upload_outcome-IsUploaded_example :
    IsUploaded no_json no_text bad_gateway (upload_outcome no_json no_text (some bad_gateway))
upload_outcome-IsUploaded_example = upload_outcome-IsUploaded no_json no_text bad_gateway

validate-keeps_policy_example :
    (validate_password_input (codes "Abcdefgh1!") default_security_policy ≡ none)
    ↔ (keeps_policy (codes "Abcdefgh1!") default_security_policy ≡ true)
validate-keeps_policy_example = validate-keeps_policy (codes "Abcdefgh1!") default_security_policy
