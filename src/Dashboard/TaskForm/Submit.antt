-- ===== src/Dashboard/TaskForm/Submit.antt =====
-- The checks of the form of a task, its request and the answer to it
-- (components/dashboard/DashboardSummary.tsx). `stamp` is `new Date(text).getTime()` of a local date
-- and time, none where that is `NaN`; `iso` is `toISOString()` of a time.
use clip_to_doc_archive.Dashboard.Times.{is_valid_time, add_minutes_to_time}
use clip_to_doc_archive.Prelude.{
  ℕ, ◌⊎◌, inl, inr, Bool, true, false, not, ◌&&◌, ◌||◌, Option, none, some, [], ◌∷◌, ◌++◌, leb,
  if◌then◌else◌, ◌==◌, nat_eq, list_eq, is_empty, contains,
}
use clip_to_doc_archive.Text.{Text, codes, trim}
use clip_to_doc_archive.Dashboard.TaskForm.{
  TaskForm, TaskItem, TaskSettings, close_task_modal, filled,
}

pub record TaskPayload : Type 0 where
  pub category : Text
  pub title : Text
  pub scheduled_at : ℕ
  pub ended_at : Option ℕ
  pub all_day : Bool
  pub location : Option Text
  pub comment : Option Text
  pub linked_document_id : Option Text
  pub linked_file_id : Option Text

-- The times are sent as texts, `iso` of each; the model keeps the times. A check that fails ends the
-- handler with its message.
pub data Checked (A : Type 0) : Type 0 where
  refused : Text → Checked A
  passed : A → Checked A

infixl 5 ◌>>=◌ ◌>>◌
unfoldable pub ◌>>=◌ : {A B : Type 0} → Checked A → (A → Checked B) → Checked B
refused message >>= f = refused message
passed a >>= f = f a

unfoldable pub ◌>>◌ : {B : Type 0} → Checked (Unit {0}) → Checked B → Checked B
unfolding ◌>>=◌
m >> k = m >>= λ _. k

unfoldable pub refuse_if : Bool → Text → Checked (Unit {0})
refuse_if true message = refused message
refuse_if false message = passed tt

unfoldable pub or_refuse : {A : Type 0} → Option A → Text → Checked A
or_refuse none message = refused message
or_refuse (some a) message = passed a

-- The end of the day's task, and of a task with no end: none.
abbrev pub end_stamp : (Text → Option ℕ) → (date end_time : Text) → Bool → Checked (Option ℕ)
end_stamp stamp date end_time no_end =
    if no_end
    then passed none
    else (or_refuse (stamp (date ++ b'T' ∷ (end_time ++ codes ":00")))
          (codes "종료 시간 형식이 올바르지 않습니다.")
        >>= λ t. passed (some t))

abbrev pub ends_early : ℕ → Option ℕ → Bool
ends_early start none = false
ends_early start (some t) = leb t start

-- The end that is sent: as typed, or an hour behind the start where it was never touched.
abbrev pub chosen_end : TaskForm → (all_day : Bool) → Text
chosen_end f all_day =
    if not all_day && is_empty (trim f.end_time) && not f.end_time_touched
    then add_minutes_to_time f.time 60
    else trim f.end_time

-- The checks of `submitTask`, in their order, and the body of its request.
unfoldable pub check_task : (Text → Option ℕ) → TaskSettings → TaskForm → Checked TaskPayload
unfolding trim add_minutes_to_time
check_task stamp settings f = do
  let category = trim f.category
  let title = trim f.title
  let all_day = settings.allow_all_day && f.all_day
  let end_time = chosen_end f all_day
  let document = trim f.linked_document_id
  let file = trim f.linked_file_id
  refuse_if (is_empty category) (codes "카테고리를 선택하세요.")
  refuse_if (not (contains settings.categories category)) (codes "유효하지 않은 카테고리입니다. 설정을 확인하세요.")
  refuse_if (is_empty title) (codes "제목을 입력하세요.")
  refuse_if (is_empty f.date) (codes "날짜를 입력하세요.")
  refuse_if (not all_day && is_empty f.time) (codes "시간을 입력하세요.")
  refuse_if (not all_day && not (is_empty end_time) && not (is_valid_time end_time))
      (codes "종료 시간 형식이 올바르지 않습니다.")
  refuse_if (not (is_empty document) && is_empty file) (codes "첨부파일까지 선택해야 일정에 연결할 수 있습니다.")
  refuse_if (is_empty document && not (is_empty file)) (codes "먼저 아카이브 게시물을 선택하세요.")
  start ←
      or_refuse
        (stamp (f.date ++ (if all_day then codes "T00:00:00" else b'T' ∷ (f.time ++ codes ":00"))))
        (codes "날짜/시간 형식이 올바르지 않습니다.")
  stop ← end_stamp stamp f.date end_time (all_day || is_empty end_time)
  refuse_if (ends_early start stop) (codes "종료 시간은 시작 시간보다 늦어야 합니다.")
  passed (record {
    category = category;
    title = title;
    scheduled_at = start;
    ended_at = stop;
    all_day = all_day;
    location = if settings.use_location then filled (trim f.location) else none;
    comment = if settings.use_comment then filled (trim f.comment) else none;
    linked_document_id = filled document;
    linked_file_id = filled file;
  })

-- `submitTask` up to its request.
unfoldable pub submit_task :
    (Text → Option ℕ) → TaskSettings → TaskForm → TaskForm × Option TaskPayload
unfolding check_task
submit_task stamp settings f = elim (check_task stamp settings f) [
  | refused message ↦ (record f { error = message }, none)
  | passed payload ↦ (record f { error = []; submitting = true }, some payload)
]

abbrev pub same_text : Option Text → Option Text → Bool
same_text none none = true
same_text (some s) (some t) = s == t
same_text _ _ = false

abbrev pub same_time : Option ℕ → Option ℕ → Bool
same_time none none = true
same_time (some s) (some t) = s == t
same_time _ _ = false

-- `savedTask.ended_at ? new Date(…).getTime() : null`; a time that is not a date equals none.
abbrev pub saved_end : (Text → Option ℕ) → Option Text → Option (Option ℕ)
saved_end stamp none = some none
saved_end stamp (some t) =
    if is_empty t then some none else (elim (stamp t) [ none ↦ none | some n ↦ some (some n) ])

abbrev pub end_is_saved : Option ℕ → Option (Option ℕ) → Bool
end_is_saved expected none = false
end_is_saved expected (some saved) = same_time expected saved

-- The answer: an error, or the task as it was saved, which has to have the link and the end.
unfoldable pub task_saved : (Text → Option ℕ) → TaskPayload → Text ⊎ TaskItem → TaskForm → TaskForm
task_saved stamp payload (inl message) f = record f { error = message; submitting = false }
task_saved stamp payload (inr saved) f =
    if not (
      same_text saved.linked_document_id payload.linked_document_id
      && same_text saved.linked_file_id payload.linked_file_id)
    then record f {
      error = codes "첨부파일 연결이 서버(DB)에 저장되지 않았습니다. 서버 마이그레이션/배포 상태를 확인하세요.";
      submitting = false;
    }
    else if not (end_is_saved payload.ended_at (saved_end stamp saved.ended_at))
    then record f {
      error = codes "종료 시간이 서버(DB)에 저장되지 않았습니다. 백엔드 최신 배포/마이그레이션 상태를 확인하세요.";
      submitting = false;
    }
    else record (close_task_modal f) { submitting = false }
