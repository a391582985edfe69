-- ===== src/Dashboard/TaskForm.antt =====
-- The form of a task (components/dashboard/DashboardSummary.tsx): opened for a day or for a task, with
-- its effects. `lower` is `toLowerCase`; the values that an `input` shows for a stored time are
-- arguments.
pub mod Submit
pub mod Payloads
use clip_to_doc_archive.Dashboard.Times.{is_valid_time, add_minutes_to_time}
use clip_to_doc_archive.Prelude.{
  Bool, true, false, not, ◌&&◌, Option, none, some, List, [], ◌∷◌, if◌then◌else◌, nat_eq, list_eq,
  is_empty, contains,
}
use clip_to_doc_archive.Text.{Text, codes, includes}

-- What the form reads of the settings.
pub record TaskSettings : Type 0 where
  pub categories : List Text
  pub allow_all_day : Bool
  pub use_location : Bool
  pub use_comment : Bool
  pub default_time : Text

pub record TaskItem : Type 0 where
  pub id : Text
  pub category : Text
  pub title : Text
  pub scheduled_at : Text
  pub ended_at : Option Text
  pub all_day : Bool
  pub location : Option Text
  pub comment : Option Text
  pub linked_document_id : Option Text
  pub linked_document_title : Option Text
  pub linked_file_id : Option Text

pub record TaskForm : Type 0 where
  pub is_open : Bool
  pub editing_task_id : Option Text
  pub error : Text
  pub submitting : Bool
  pub category : Text
  pub title : Text
  pub date : Text
  pub time : Text
  pub end_time : Text
  pub end_time_touched : Bool
  pub all_day : Bool
  pub location : Text
  pub comment : Text
  pub linked_document_id : Text
  pub linked_document_title : Text
  pub linked_file_id : Text

-- `text || d`
abbrev pub filled_or : Text → Text → Text
filled_or d s = if is_empty s then d else s

-- `text || null`
abbrev pub filled : Text → Option Text
filled s = if is_empty s then none else some s

-- `value || ""`
abbrev pub or_empty : Option Text → Text
or_empty none = []
or_empty (some s) = s

-- `categories[0] || "할일"`
abbrev pub first_category : List Text → Text
first_category [] = codes "할일"
first_category (c ∷ cs) = filled_or (codes "할일") c

unfoldable pub reset_task_form_for_date : TaskSettings → (date_key : Text) → TaskForm → TaskForm
unfolding add_minutes_to_time
reset_task_form_for_date settings date_key f =
    let default_time = filled_or (codes "09:00") settings.default_time in
    record f {
      error = [];
      editing_task_id = none;
      category = first_category settings.categories;
      title = [];
      date = date_key;
      time = default_time;
      end_time = add_minutes_to_time default_time 60;
      end_time_touched = false;
      all_day = false;
      location = [];
      comment = [];
      linked_document_id = [];
      linked_document_title = [];
      linked_file_id = [];
    }

abbrev pub open_task_modal : TaskSettings → (date_key : Text) → TaskForm → TaskForm
open_task_modal settings date_key f = record (reset_task_form_for_date settings date_key f) {
  is_open = true;
}

-- `date_value` and `time_value` are `toDateInputValue` and `toTimeInputValue`.
unfoldable pub open_task_edit_modal :
    (date_value time_value : Text → Text) → TaskSettings → TaskItem → TaskForm → TaskForm
unfolding add_minutes_to_time
open_task_edit_modal date_value time_value settings item f =
    let start_time =
      if item.all_day
      then filled_or (codes "09:00") settings.default_time
      else time_value item.scheduled_at in
    let end_time : Text = elim item.ended_at [
      | none ↦ []
      | some t ↦ if is_empty t then [] else time_value t
    ] in
    let should_default_end = not item.all_day && is_empty end_time in
    record f {
      error = [];
      editing_task_id = some item.id;
      category =
          if contains settings.categories item.category
          then item.category
          else first_category settings.categories;
      title = item.title;
      date = date_value item.scheduled_at;
      time = start_time;
      end_time = if should_default_end then add_minutes_to_time start_time 60 else end_time;
      end_time_touched = not should_default_end && not (is_empty end_time);
      all_day = item.all_day;
      location = or_empty item.location;
      comment = or_empty item.comment;
      linked_document_id = or_empty item.linked_document_id;
      linked_document_title = or_empty item.linked_document_title;
      linked_file_id = or_empty item.linked_file_id;
      is_open = true;
    }

abbrev pub close_task_modal : TaskForm → TaskForm
close_task_modal f = record f { is_open = false; editing_task_id = none; error = [] }

-- The effect that keeps the end an hour behind the start, until the end is typed.
unfoldable pub end_time_effect : TaskSettings → TaskForm → TaskForm
unfolding add_minutes_to_time
end_time_effect settings f =
    let base_time =
      if is_valid_time f.time then f.time else filled_or (codes "09:00") settings.default_time in
    if not f.is_open
    then f
    else if f.all_day
    then record f { end_time = []; end_time_touched = false }
    else if f.end_time_touched
    then f
    else record f { end_time = add_minutes_to_time base_time 60 }

-- The effect of the category: only a meeting has a linked document.
unfoldable pub category_effect : (Text → Text) → TaskForm → TaskForm
unfolding includes
category_effect lower f =
    if includes (lower f.category) (codes "회의")
    then f
    else record f { linked_document_id = []; linked_document_title = []; linked_file_id = [] }
