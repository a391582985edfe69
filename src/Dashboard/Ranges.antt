-- ===== src/Dashboard/Ranges.antt =====
-- The range of days whose tasks are listed (`clampInteger`, `normalizeTaskListRange…`,
-- `addMonthsClamped`, `buildTaskListRange`). A number is given by its integral part, and by `none`
-- where it is not finite.
use clip_to_doc_archive.Prelude.Int.{ℤ, pos, negsuc}
use clip_to_doc_archive.Dashboard.Dates.{Date, new_date, month_length}
use clip_to_doc_archive.Prelude.{
  ℕ, zero, suc, ◌+◌, ◌-◌, min, max, Option, none, some, ltb, if◌then◌else◌, nat_eq, list_eq,
}

abbrev pub default_past_days : ℕ
default_past_days = 7

abbrev pub default_future_months : ℕ
default_future_months = 2

abbrev pub max_past_days : ℕ
max_past_days = 365

abbrev pub max_future_months : ℕ
max_future_months = 24

unfoldable pub clamp_integer : Option ℤ → (least most : ℕ) → ℕ
clamp_integer none least most = least
clamp_integer (some (pos value)) least most = max least (min most value)
clamp_integer (some (negsuc value)) least most = least

unfoldable pub normalize_past_days : Option ℤ → ℕ
unfolding clamp_integer
normalize_past_days none = default_past_days
normalize_past_days (some value) = clamp_integer (some value) 0 max_past_days

unfoldable pub normalize_future_months : Option ℤ → ℕ
unfolding clamp_integer
normalize_future_months none = default_future_months
normalize_future_months (some value) = clamp_integer (some value) 0 max_future_months

unfoldable pub add_months_clamped : Date → ℕ → Date
unfolding new_date
add_months_clamped base months =
    let first_of_target = new_date (base.months + months) 1 in
    let last_day = (new_date (first_of_target.months + 1) 0).day in
    new_date first_of_target.months (min base.day last_day)

-- `setDate(getDate() - count)`: before the first of a month stands the last of the one before.
abbrev pub borrow : ℕ → (months day count : ℕ) → Date
borrow zero months day count = record { months = months; day = day }
borrow (suc fuel) months day count =
    let earlier = borrow fuel (months - 1) (month_length (months - 1)) (count - day) in
    if ltb count day then record { months = months; day = day - count } else earlier

unfoldable pub days_earlier : Date → ℕ → Date
unfolding month_length
days_earlier d count = borrow (suc count) d.months d.day count

pub record TaskListRange : Type 0 where
  pub start_date : Date
  pub end_date_inclusive : Date
  pub end_date_exclusive : Date

-- `now` is the day that `startOfLocalDay` gives.
unfoldable pub build_task_list_range :
    (now : Date) → (past_days future_months : Option ℤ) → TaskListRange
unfolding normalize_past_days normalize_future_months days_earlier add_months_clamped
build_task_list_range now past_days future_months =
    let end_inclusive = add_months_clamped now (normalize_future_months future_months) in
    record {
      start_date = days_earlier now (normalize_past_days past_days);
      end_date_inclusive = end_inclusive;
      end_date_exclusive = new_date end_inclusive.months (end_inclusive.day + 1);
    }
