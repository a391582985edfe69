-- ===== src/Comments/Answers.antt =====
-- Laws of the answers to the requests of the comments panel
-- (components/documents/DocumentCommentsPanel.tsx).
use clip_to_doc_archive.Comments.{
  Comment, CommentsState, created_comment, replace_comment, edited_comment, removed_comment,
  comment_ids,
}
use clip_to_doc_archive.Prelude.{
  ap₂, ◌≡◌, refl, sym, ap, ◌⊎◌, inl, inr, Bool, false, not, ◌&&◌, ◌||◌, Option, none, some, List,
  [], ◌∷◌, ◌++◌, arith, Bool-cases, ◌==◌, nat_eq, list_beq_iff, list_eq, keep_if, contains,
}
use clip_to_doc_archive.Text.{Text}

replace_comment-ids :
    (updated : Comment) (rows : List Comment)
    → comment_ids (replace_comment updated rows) ≡ comment_ids rows
replace_comment-ids updated [] = refl
replace_comment-ids updated (row ∷ rows) = elim (Bool-cases (row.id == updated.id)) [
  | inl same ↦
      rw same
        (ap₂ ◌∷◌ (sym ((list_beq_iff row.id updated.id).0 same)) (replace_comment-ids updated rows))
  | inr other ↦ rw other (ap (◌∷◌ row.id) (replace_comment-ids updated rows))
]

contains-kept_ids :
    (rows : List Comment) (id k : Text)
    → contains (comment_ids (keep_if (λ row. not (row.id == id)) rows)) k
      ≡ contains (comment_ids rows) k && not (k == id)
contains-kept_ids [] id k = refl
contains-kept_ids (row ∷ rows) id k = elim (Bool-cases (row.id == id)) [
  | inl same ↦ rw same (
      ground (
        arith,
        contains-kept_ids rows id k,
        list_beq_iff row.id id,
        list_beq_iff k row.id,
        list_beq_iff k id,
      ))
  | inr other ↦ rw other (
      ground (
        arith,
        contains-kept_ids rows id k,
        list_beq_iff row.id id,
        list_beq_iff k row.id,
        list_beq_iff k id,
      ))
]

-- What an answer to one of the three requests leaves of the comments.
pub data Answered : Type 0 where
  to_create : Text ⊎ Comment → Answered
  to_edit : Text ⊎ Comment → Answered
  to_remove : Option Text → Comment → Option Text → Answered

abbrev pub after_answer : Answered → CommentsState → CommentsState
after_answer (to_create answer) s = created_comment answer s
after_answer (to_edit answer) s = edited_comment answer s
after_answer (to_remove editing item answer) s = removed_comment editing item answer s

-- Whether the comment `k` is in the list after an answer, by what it was before.
abbrev pub has_after : Answered → Text → Bool → Bool
has_after (to_create (inr created)) k before = before || k == created.id
has_after (to_remove editing item none) k before = before && not (k == item.id)
has_after _ k before = before

-- After the answer to a request that creates, edits or removes a comment, a comment is in the list
-- as it was before, except that a created one is in it and a removed one is not, and a failure
-- changes none; in each case nothing is being submitted any more.
contains-after_answer :
    (answer : Answered) (s : CommentsState) (k : Text)
    → (contains (comment_ids (after_answer answer s).items) k
        ≡ has_after answer k (contains (comment_ids s.items) k))
      × ((after_answer answer s).submitting ≡ false)
contains-after_answer (to_create (inl failure)) s k = (refl, refl)
contains-after_answer (to_create (inr created)) s k = (added s.items, refl)
  where
    added :
        (rows : List Comment)
        → contains (comment_ids (rows ++ created ∷ [])) k
          ≡ contains (comment_ids rows) k || k == created.id
    added [] = ground arith
    added (row ∷ rows) = ground (arith, added rows)
contains-after_answer (to_edit (inl failure)) s k = (refl, refl)
contains-after_answer (to_edit (inr updated)) s k =
    (ap (λ l. contains l k) (replace_comment-ids updated s.items), refl)
contains-after_answer (to_remove editing item (some failure)) s k = (refl, refl)
contains-after_answer (to_remove editing item none) s k =
    (contains-kept_ids s.items item.id k, refl)
