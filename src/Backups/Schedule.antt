-- ===== src/Backups/Schedule.antt =====
-- The schedule of the automatic backups (components/admin/AdminBackupManager.tsx). `round` is
-- `Math.round(Number(…))` of what stands in the field of the interval: none where `Number` gives 0
-- or `NaN`; an interval of the service is a whole number or none.
pub mod Settings
use clip_to_doc_archive.Prelude.{
  ℕ, min, max, ◌⊎◌, inl, inr, Bool, true, false, ◌&&◌, ◌||◌, Option, none, some, [], ◌∷◌, ◌++◌, leb,
  if◌then◌else◌, ◌==◌, nat_eq, list_eq, is_empty,
}
use clip_to_doc_archive.Text.{Text, codes, trim}

pub record Schedule : Type 0 where
  pub loading : Bool
  pub saving : Bool
  pub enabled : Bool
  pub interval_days : Option ℕ
  pub run_time : Text
  pub target_dir : Text
  pub timezone : Text
  pub export_root : Text
  pub last_run_at : Option Text
  pub last_status : Option Text
  pub last_error : Option Text
  pub last_output_dir : Option Text

pub record ScheduleResponse : Type 0 where
  pub enabled : Bool
  pub interval_days : Option ℕ
  pub run_time : Option Text
  pub schedule_timezone : Option Text
  pub target_dir : Text
  pub backup_export_root : Text
  pub last_run_at : Option Text
  pub last_status : Option Text
  pub last_error : Option Text
  pub last_output_dir : Option Text

-- `text || d`
abbrev pub filled_or : Text → Text → Text
filled_or d s = if is_empty s then d else s

-- `typeof text === "string" && text ? text : d`
abbrev pub string_or : Text → Option Text → Text
string_or d none = d
string_or d (some s) = filled_or d s

-- `Math.max(1, Math.min(60, days))`
abbrev pub clamp_days : ℕ → ℕ
clamp_days days = max 1 (min 60 days)

abbrev pub days_or_1 : Option ℕ → ℕ
days_or_1 none = 1
days_or_1 (some days) = clamp_days days

-- `(dir || "scheduled").trim() || "scheduled"`
unfoldable pub settled_dir : Text → Text
unfolding trim
settled_dir dir = filled_or (codes "scheduled") (trim (filled_or (codes "scheduled") dir))

-- What `loadSchedule` and `saveSchedule` set from an answer.
unfoldable pub from_response : ScheduleResponse → Schedule → Schedule
unfolding settled_dir
from_response res s = record s {
  enabled = res.enabled;
  interval_days = some (days_or_1 res.interval_days);
  run_time = string_or (codes "02:00") res.run_time;
  timezone = string_or (codes "UTC") res.schedule_timezone;
  target_dir = settled_dir res.target_dir;
  export_root = filled_or (codes "/backup-export") res.backup_export_root;
  last_run_at = res.last_run_at;
  last_status = res.last_status;
  last_error = res.last_error;
  last_output_dir = res.last_output_dir;
}

-- The body of the request that saves the schedule.
pub record SchedulePayload : Type 0 where
  pub enabled : Bool
  pub interval_days : ℕ
  pub run_time : Text
  pub target_dir : Text

-- `text.trim() || d`
unfoldable pub trimmed_or : Text → Text → Text
unfolding trim
trimmed_or d s = filled_or d (trim s)

unfoldable pub save_schedule : Schedule → Schedule × SchedulePayload
unfolding trimmed_or
save_schedule s = (
  record s { saving = true },
  record {
    enabled = s.enabled;
    interval_days = days_or_1 s.interval_days;
    run_time = trimmed_or (codes "02:00") s.run_time;
    target_dir = trimmed_or (codes "scheduled") s.target_dir;
  },
)

unfoldable pub schedule_saved : Text ⊎ ScheduleResponse → Schedule → Schedule
unfolding from_response
schedule_saved (inl message) s = record s { saving = false }
schedule_saved (inr res) s = record (from_response res s) { saving = false }

abbrev pub load_schedule : Schedule → Schedule
load_schedule s = record s { loading = true }

unfoldable pub schedule_loaded : Option ScheduleResponse → Schedule → Schedule
unfolding from_response
schedule_loaded none s = record s { loading = false }
schedule_loaded (some res) s = record (from_response res s) { loading = false }

abbrev pub is_letter : ℕ → Bool
is_letter c = (leb b'A' c && leb c b'Z') || (leb b'a' c && leb c b'z')

abbrev pub is_slash : ℕ → Bool
is_slash c = c == b'/' || c == 92

-- `/^([A-Za-z]:[\\/]|\/|\\\\)/`
unfoldable pub is_absolute : Text → Bool
is_absolute (a ∷ b ∷ c ∷ s) =
    (is_letter a && b == b':' && is_slash c) || a == b'/' || (a == 92 && b == 92)
is_absolute (a ∷ b ∷ []) = a == b'/' || (a == 92 && b == 92)
is_absolute (a ∷ []) = a == b'/'
is_absolute [] = false

-- `root.replace(/[\\/]+$/, "")`
abbrev pub slash_free_end : ℕ → Text → Text
slash_free_end c s = if is_slash c && is_empty s then [] else c ∷ s

unfoldable pub without_end_slashes : Text → Text
without_end_slashes [] = []
without_end_slashes (c ∷ s) = slash_free_end c (without_end_slashes s)

-- `target.replace(/^[\\/]+/, "")`
unfoldable pub without_start_slashes : Text → Text
without_start_slashes [] = []
without_start_slashes (c ∷ s) =
    let rest = without_start_slashes s in if is_slash c then rest else c ∷ s

unfoldable pub resolved_schedule_target_path : Schedule → Text
unfolding trimmed_or is_absolute without_end_slashes without_start_slashes
resolved_schedule_target_path s =
    let target = trimmed_or (codes "scheduled") s.target_dir in
    let root = without_end_slashes (filled_or (codes "/backup-export") s.export_root) in
    if is_absolute target then target else root ++ b'/' ∷ without_start_slashes target
