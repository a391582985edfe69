-- ===== src/Dashboard/TaskList.antt =====
-- The list of tasks of the dashboard (components/dashboard/DashboardSummary.tsx): each request takes
-- the next number, and an answer counts only if its number is still the last; and the filters.
pub mod Latest
use clip_to_doc_archive.Prelude.{
  ℕ, ◌+◌, Bool, true, false, List, [], ◌∷◌, if◌then◌else◌, ◌==◌, nat_eq, list_eq,
}
use clip_to_doc_archive.Text.{Text}

pub record TaskList (T : Type 0) : Type 0 where
  pub request_seq : ℕ
  pub tasks : List T
  pub loaded_once : Bool
  pub loading : Bool
  pub error : Text

-- What a request brings: the message of its error, or the tasks.
pub data Answer (T : Type 0) : Type 0 where
  failed : Text → Answer T
  arrived : List T → Answer T

pub data Turn (T : Type 0) : Type 0 where
  asked : Turn T
  answered : (number : ℕ) → Answer T → Turn T

module _ {T : Type 0} where
  -- `loadListTasks` up to its request, whose number is the new one.
  unfoldable pub load_list_tasks : TaskList T → TaskList T
  load_list_tasks l = record l {
    request_seq = l.request_seq + 1;
    loaded_once = false;
    loading = true;
    error = [];
  }

  -- The list with an answer in it.
  unfoldable pub with_answer : Answer T → TaskList T → TaskList T
  with_answer (arrived items) l = record l { tasks = items; loaded_once = true; loading = false }
  with_answer (failed message) l = record l {
    tasks = [];
    error = message;
    loaded_once = true;
    loading = false;
  }

  -- The answer to the request of a number.
  unfoldable pub list_tasks_loaded : (number : ℕ) → Answer T → TaskList T → TaskList T
  unfolding with_answer
  list_tasks_loaded number answer l = if l.request_seq == number then with_answer answer l else l

  unfoldable pub turn : TaskList T → Turn T → TaskList T
  unfolding load_list_tasks list_tasks_loaded
  turn l asked = load_list_tasks l
  turn l (answered number answer) = list_tasks_loaded number answer l

  unfoldable pub turns : TaskList T → List (Turn T) → TaskList T
  unfolding turn
  turns l [] = l
  turns l (t ∷ rest) = turns (turn l t) rest
