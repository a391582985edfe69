-- ===== src/Backups/Schedule/Settings.antt =====
-- What the schedule of the backups saves and where it points to
-- (components/admin/AdminBackupManager.tsx).
use clip_to_doc_archive.Text.Laws.{trim-IsTrimmed}
use clip_to_doc_archive.Backups.Schedule.{
  Schedule, SchedulePayload, days_or_1, save_schedule, trimmed_or,
}
use clip_to_doc_archive.Prelude.{
  ℕ, ◌≤◌, ◌≡◌, refl, inl, inr, false, Option, none, some, arith, Bool-cases, nat_eq, list_eq,
  is_empty,
}
use clip_to_doc_archive.Text.{Text, codes, is_space, trim_start, trim_end, trim}

-- A day count, a time and a folder that the service can use.
pub record IsUsable (p : SchedulePayload) : Type 0 where
  pub from_one : 1 ≤ p.interval_days
  pub to_sixty : p.interval_days ≤ 60
  pub timed : is_empty p.run_time ≡ false
  pub trimmed_time : trim p.run_time ≡ p.run_time
  pub placed : is_empty p.target_dir ≡ false
  pub trimmed_dir : trim p.target_dir ≡ p.target_dir

days_bounds : (days : Option ℕ) → (1 ≤ days_or_1 days) × (days_or_1 days ≤ 60)
days_bounds none = omega arith
days_bounds (some days) = omega arith

trimmed_or-filled :
    (d s : Text)
    → is_empty d ≡ false
    → trim d ≡ d
    → (is_empty (trimmed_or d s) ≡ false) × (trim (trimmed_or d s) ≡ trimmed_or d s)
unfolding trimmed_or
trimmed_or-filled d s f t = elim (Bool-cases (is_empty (trim s))) [
  | inl blank ↦ rw blank (f, t)
  | inr filled ↦ rw filled (filled, trim-IsTrimmed s)
]

-- Whatever stands in the form, it is sent with an interval of 1 to 60 days, and a time and a folder
-- that are trimmed and not empty.
save_schedule-IsUsable : (s : Schedule) → IsUsable (save_schedule s).1
unfolding save_schedule
save_schedule-IsUsable s =
    let (timed, trimmed_time) =
      trimmed_or-filled (codes "02:00") s.run_time refl
        (unfold trim trim_start trim_end is_space in refl) in
    let (placed, trimmed_dir) =
      trimmed_or-filled (codes "scheduled") s.target_dir refl
        (unfold trim trim_start trim_end is_space in refl) in
    record {
      from_one = (days_bounds s.interval_days).0;
      to_sixty = (days_bounds s.interval_days).1;
      timed = timed;
      trimmed_time = trimmed_time;
      placed = placed;
      trimmed_dir = trimmed_dir;
    }
