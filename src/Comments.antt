-- ===== src/Comments.antt =====
-- The comments of a document (components/documents/DocumentCommentsPanel.tsx): the list, the comment
-- that is written and the one that is edited. A handler with a request is given by what it does
-- before it, and by what it does with the answer; a failure carries its message.
pub mod Answers
use clip_to_doc_archive.Prelude.{
  ◌⊎◌, inl, inr, Bool, true, false, not, Option, none, some, List, [], ◌∷◌, ◌++◌, map,
  if◌then◌else◌, ◌==◌, nat_eq, list_eq, is_empty, keep_if,
}
use clip_to_doc_archive.Text.{Text, codes, trim}

pub record Comment : Type 0 where
  pub id : Text
  pub document_id : Text
  pub content : Text
  pub created_at : Text
  pub updated_at : Text
  pub created_by : Option Text
  pub created_by_username : Option Text
  pub is_edited : Bool
  pub can_edit : Bool
  pub can_delete : Bool

pub record CommentsState : Type 0 where
  pub items : List Comment
  pub loading : Bool
  pub error : Text
  pub notice : Text
  pub submitting : Bool
  pub new_content : Text
  pub editing_id : Option Text
  pub editing_content : Text

abbrev pub load_comments : CommentsState → CommentsState
load_comments s = record s { loading = true; error = [] }

abbrev pub loaded_comments : Text ⊎ List Comment → CommentsState → CommentsState
loaded_comments (inl failure) s = record s { items = []; error = failure; loading = false }
loaded_comments (inr items) s = record s { items = items; loading = false }

-- The effect for a new document.
abbrev pub show_document : CommentsState → CommentsState
show_document s =
    load_comments
      (record s { new_content = []; editing_id = none; editing_content = []; notice = [] })

abbrev pub begin_submit : CommentsState → CommentsState
begin_submit s = record s { submitting = true; error = []; notice = [] }

-- `submitCreate` up to its request, with the content that it sends.
abbrev pub submit_create : CommentsState → CommentsState × Option Text
submit_create s =
    if is_empty (trim s.new_content)
    then (record s { error = codes "코멘트 내용을 입력하세요." }, none)
    else (begin_submit s, some (trim s.new_content))

abbrev pub created_comment : Text ⊎ Comment → CommentsState → CommentsState
created_comment (inl failure) s = record s { error = failure; submitting = false }
created_comment (inr created) s = record s {
  items = s.items ++ created ∷ [];
  new_content = [];
  notice = codes "코멘트가 등록되었습니다.";
  submitting = false;
}

abbrev pub start_edit : Comment → CommentsState → CommentsState
start_edit item s = record s {
  editing_id = some item.id;
  editing_content = item.content;
  error = [];
  notice = [];
}

abbrev pub cancel_edit : CommentsState → CommentsState
cancel_edit s = record s { editing_id = none; editing_content = [] }

-- `submitEdit` up to its request, with the comment and the content that it sends.
abbrev pub submit_edit : CommentsState → CommentsState × Option (Text × Text)
submit_edit s = elim s.editing_id [
  | none ↦ (s, none)
  | some id ↦
      if is_empty (trim s.editing_content)
      then (record s { error = codes "코멘트 내용을 입력하세요." }, none)
      else (begin_submit s, some (id, trim s.editing_content))
]

-- `prev.map((row) => (row.id === updated.id ? updated : row))`
abbrev pub replace_comment : Comment → List Comment → List Comment
replace_comment updated [] = []
replace_comment updated (row ∷ rows) =
    (if row.id == updated.id then updated else row) ∷ replace_comment updated rows

abbrev pub edited_comment : Text ⊎ Comment → CommentsState → CommentsState
edited_comment (inl failure) s = record s { error = failure; submitting = false }
edited_comment (inr updated) s = record s {
  items = replace_comment updated s.items;
  editing_id = none;
  editing_content = [];
  notice = codes "코멘트가 수정되었습니다.";
  submitting = false;
}

-- `removeComment` up to its request, with the answer to the question that it asks.
abbrev pub remove_comment :
    (confirmed : Bool) → Comment → CommentsState → CommentsState × Option Text
remove_comment confirmed item s =
    if not confirmed then (s, none) else (begin_submit s, some item.id)

-- What is edited in the state of the removal's click is what `removeComment` compares with.
abbrev pub removed_comment :
    (editing_before : Option Text) → Comment → Option Text → CommentsState → CommentsState
removed_comment editing_before item (some failure) s = record s {
  error = failure;
  submitting = false;
}
removed_comment editing_before item none s =
    let edits : Bool = elim editing_before [ none ↦ false | some id ↦ id == item.id ] in
    record s {
      items = keep_if (λ row. not (row.id == item.id)) s.items;
      editing_id = if edits then none else s.editing_id;
      editing_content = if edits then [] else s.editing_content;
      notice = codes "코멘트가 삭제되었습니다.";
      submitting = false;
    }

abbrev pub comment_ids : List Comment → List Text
comment_ids = map (λ c. c.id)
