-- ===== src/Tests/Placement.antt =====
-- The mind map's nodes and labels, and the tasks of the dashboard, at concrete inputs.
use clip_to_doc_archive.MindMap.Placement.{Geometry, place_candidates}
use clip_to_doc_archive.MindMap.Placement.Least.{ArePlaced, place_candidates-ArePlaced}
use clip_to_doc_archive.MindMap.Labels.{pieces, split_label}
use clip_to_doc_archive.MindMap.Labels.Lines.{concat, Fits, concat-pieces, split_label-Fits}
use clip_to_doc_archive.Dashboard.TaskForm.{TaskSettings, TaskForm}
use clip_to_doc_archive.Dashboard.TaskForm.Submit.{
  TaskPayload, passed, check_task, ◌>>◌, refuse_if, or_refuse,
}
use clip_to_doc_archive.Dashboard.TaskForm.Payloads.{is_task, check_task-IsTask}
use clip_to_doc_archive.Dashboard.TaskList.{
  TaskList, failed, arrived, Turn, asked, answered, with_answer, load_list_tasks, turns,
}
use clip_to_doc_archive.Dashboard.TaskList.Latest.{stale, turns-Latest}
use clip_to_doc_archive.Prelude.{
  ℕ, ◌+◌, ◌-◌, ◌*◌, ◌≡◌, refl, true, false, Option, none, some, List, [], ◌∷◌, ◌++◌, arith, ltb,
  nat_eq, list_eq, take, drop,
}
use clip_to_doc_archive.Text.{Text, codes}

-- Nodes on a line: two that are less than three apart overlap.
abbrev line : Geometry ℕ ℕ ℕ
line = record {
  spot = λ c ring angle. c + ring * 3 + angle;
  home = λ c. c;
  bounds = λ c p. p;
  overlaps = λ a b. ltb (a - b + (b - a)) 3;
}

place_candidates-ArePlaced_example :
    ArePlaced line 2 1 4 (5 ∷ 6 ∷ []) (7 ∷ []) (place_candidates line 2 (5 ∷ 6 ∷ []) (7 ∷ []))
place_candidates-ArePlaced_example =
    place_candidates-ArePlaced line 2 1 4 (5 ∷ 6 ∷ []) (7 ∷ []) (omega arith, refl)

concat-pieces_example : concat (pieces 9 4 (codes "knowledge")) ≡ codes "knowledge"
concat-pieces_example = concat-pieces 9 4 (codes "knowledge") (omega arith) (omega arith)

split_label-Fits_example : Fits 4 2 (split_label (codes "  knowledge  base ") 4 2)
split_label-Fits_example =
    split_label-Fits (codes "  knowledge  base ") 4 2 (omega arith) (omega arith)

abbrev settings : TaskSettings
settings = record {
  categories = codes "할일" ∷ codes "회의" ∷ [];
  allow_all_day = false;
  use_location = true;
  use_comment = false;
  default_time = codes "09:00";
}

abbrev review_meeting : TaskForm
review_meeting = record {
  is_open = true;
  editing_task_id = none;
  error = [];
  submitting = false;
  category = codes "회의";
  title = codes " Review ";
  date = codes "2025-08-01";
  time = codes "09:00";
  end_time = codes "10:00";
  end_time_touched = false;
  all_day = true;
  location = codes "Room 1";
  comment = codes "bring notes";
  linked_document_id = codes "d1";
  linked_document_title = codes "Minutes";
  linked_file_id = codes "f1";
}

-- A clock that reads only the hour's two digits.
abbrev hours : Text → Option ℕ
hours s = elim (take 2 (drop 11 s)) [
  | [] ↦ none
  | tens ∷ rest ↦ elim rest [ [] ↦ none | ones ∷ more ↦ some ((tens - 48) * 10 + (ones - 48)) ]
]

abbrev review_payload : TaskPayload
review_payload = record {
  category = codes "회의";
  title = codes "Review";
  scheduled_at = 9;
  ended_at = some 10;
  all_day = false;
  location = some (codes "Room 1");
  comment = none;
  linked_document_id = some (codes "d1");
  linked_file_id = some (codes "f1");
}

review_meeting_passes : check_task hours settings review_meeting ≡ passed review_payload
unfolding check_task ◌>>◌ refuse_if or_refuse
review_meeting_passes = refl

check_task-IsTask_example : is_task settings review_payload ≡ true
check_task-IsTask_example =
    check_task-IsTask hours settings review_meeting review_payload review_meeting_passes

abbrev two_tasks : TaskList ℕ
two_tasks = record {
  request_seq = 3;
  tasks = 1 ∷ 2 ∷ [];
  loaded_once = true;
  loading = false;
  error = [];
}

abbrev late_answers : List (Turn ℕ)
late_answers = answered 3 (failed (codes "timeout")) ∷ answered 2 (arrived (9 ∷ [])) ∷ []

turns-Latest_example :
    turns two_tasks (asked ∷ late_answers ++ answered 4 (arrived (5 ∷ [])) ∷ late_answers)
    ≡ with_answer (arrived (5 ∷ [])) (load_list_tasks two_tasks)
turns-Latest_example =
    turns-Latest two_tasks late_answers late_answers (arrived (5 ∷ []))
      (stale (omega arith), (stale (omega arith), tt))
      (stale (omega arith), (stale (omega arith), tt))
