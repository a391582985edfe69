-- ===== src/Dashboard/RangeDays.antt =====
-- Laws of the range of the task list (`buildTaskListRange` in
-- components/dashboard/DashboardSummary.tsx), counted in days.
use clip_to_doc_archive.Prelude.Int.{ℤ, pos, negsuc}
use clip_to_doc_archive.Dashboard.Dates.{
  Date, IsDate, new_date, carry, day_number, days_before, days_before-suc, month_length,
  month_length-bounds,
}
use clip_to_doc_archive.Dashboard.Cells.{new_date_in_month}
use clip_to_doc_archive.Dashboard.Ranges.{
  clamp_integer, normalize_past_days, normalize_future_months, add_months_clamped, borrow,
  days_earlier, TaskListRange, build_task_list_range, max_past_days,
}
use clip_to_doc_archive.Prelude.{
  subst, ℕ, zero, suc, ◌+◌, ◌-◌, ◌*◌, ◌≤◌, ◌<◌, min, ◌≡◌, refl, sym, ap, inl, inr, Option, none,
  some, arith, ltb, leb, Bool-cases, nat_eq, list_eq,
}

normalize_past_days-bounds : (value : Option ℤ) → normalize_past_days value ≤ max_past_days
unfolding normalize_past_days clamp_integer
normalize_past_days-bounds none = omega arith
normalize_past_days-bounds (some (pos value)) = omega arith
normalize_past_days-bounds (some (negsuc value)) = omega arith

days_before_mono : (m k : ℕ) → days_before m ≤ days_before (m + k)
days_before_mono m zero = let e : m ≡ m + 0 = omega arith in omega (arith, ap days_before e)
days_before_mono m (suc k) =
    let e : days_before (m + suc k) ≡ days_before (suc (m + k)) =
      ap days_before (let q : m + suc k ≡ suc (m + k) = omega arith in q) in
    omega (arith, e, days_before-suc (m + k), days_before_mono m k)

-- The days of a month run on into the next ones.
carry_lem :
    (fuel months day : ℕ)
    → 1 ≤ day
    → day ≤ fuel + 1
    → (day_number (carry fuel months day) ≡ days_before months + (day - 1))
      × IsDate (carry fuel months day)
carry_lem zero months day h k = (
  refl,
  record { from_first = h; to_last = let b = month_length-bounds months in omega (arith, b.0) },
)
carry_lem (suc fuel) months day h k = elim (Bool-cases (leb day (month_length months))) [
  | inl inside ↦ rw inside (refl, record { from_first = h; to_last = ground arith })
  | inr outside ↦
      let b = month_length-bounds months in
      let over : month_length months < day = ground arith in
      let (n, d) =
        carry_lem fuel (suc months) (day - month_length months) (omega arith)
          (omega (arith, b.0)) in
      rw outside (omega (arith, n, days_before-suc months), d)
]

day_number-new_date :
    (months day : ℕ)
    → 1 ≤ day
    → (day_number (new_date months day) ≡ days_before months + (day - 1))
      × IsDate (new_date months day)
unfolding new_date
day_number-new_date months zero h = absurd (omega arith)
day_number-new_date months (suc day) h = carry_lem day months (suc day) h (omega arith)

-- Going back is bounded by the months there are, each of at least 28 days.
borrow_lem :
    (fuel months day count : ℕ)
    → 1 ≤ day
    → day ≤ month_length months
    → count < fuel
    → count + 28 < 28 * months + day
    → (day_number (borrow fuel months day count) + count ≡ days_before months + (day - 1))
      × IsDate (borrow fuel months day count)
borrow_lem zero months day count h k f m = absurd (omega arith)
borrow_lem (suc fuel) months day count h k f m = elim (Bool-cases (ltb count day)) [
  | inl inside ↦
      let c : count < day = ground arith in
      rw inside (omega arith, record { from_first = omega arith; to_last = omega arith })
  | inr outside ↦
      let c : day ≤ count = ground arith in
      let b = month_length-bounds (months - 1) in
      let e : suc (months - 1) ≡ months = omega arith in
      let s = days_before-suc (months - 1) in
      let same : days_before (suc (months - 1)) ≡ days_before months = ap days_before e in
      let (n, d) =
        borrow_lem fuel (months - 1) (month_length (months - 1)) (count - day) (omega (arith, b.0))
          (omega arith) (omega arith) (omega (arith, b.0)) in
      rw outside (omega (arith, n, s, same, b.0), d)
]

-- The same day of a later month, or its last day.
add_months_clamped_lem :
    (d : Date) (months : ℕ)
    → IsDate d
    → (IsDate (add_months_clamped d months))
      × ((add_months_clamped d months).months ≡ d.months + months)
      × ((add_months_clamped d months).day ≤ d.day)
      × (day_number d ≤ day_number (add_months_clamped d months))
unfolding add_months_clamped new_date
add_months_clamped_lem d months v =
    let b = month_length-bounds (d.months + months) in
    let e : d.months + months + 1 - 1 ≡ d.months + months = omega arith in
    let last : month_length (d.months + months + 1 - 1) ≡ month_length (d.months + months) =
      ap month_length e in
    let day : ℕ = min d.day (month_length (d.months + months + 1 - 1)) in
    let here : new_date (d.months + months) day ≡ record { months = d.months + months; day = day } =
      new_date_in_month (d.months + months) day (omega (arith, v.from_first, last, b.0))
        (omega (arith, last)) in
    subst
      (λ r.
        IsDate r × (r.months ≡ d.months + months) × (r.day ≤ d.day) × (day_number d ≤ day_number r))
      (sym here)
      (
        record {
          from_first = omega (arith, v.from_first, last, b.0);
          to_last = omega (arith, last);
        },
        refl,
        omega arith,
        later months,
      )
  where
    later :
        (k : ℕ)
        → day_number d
          ≤ days_before (d.months + k) + (min d.day (month_length (d.months + k + 1 - 1)) - 1)
    later zero =
        let e : d.months + 0 ≡ d.months = omega arith in
        let e' : d.months + 0 + 1 - 1 ≡ d.months = omega arith in
        omega (arith, ap days_before e, ap month_length e', v.to_last)
    later (suc k) =
        let e : d.months + suc k ≡ suc d.months + k = omega arith in
        omega (
          arith,
          ap days_before e,
          days_before_mono (suc d.months) k,
          days_before-suc d.months,
          v.to_last,
          v.from_first,
        )

-- What the task list covers.
pub record IsRange (now : Date) (past_days future_months : ℕ) (r : TaskListRange) : Type 0 where
  pub dates : IsDate r.start_date × IsDate r.end_date_inclusive × IsDate r.end_date_exclusive
  pub start : day_number r.start_date + past_days ≡ day_number now
  pub target_month : r.end_date_inclusive.months ≡ now.months + future_months
  pub target_day : r.end_date_inclusive.day ≤ now.day
  pub has_today : day_number now ≤ day_number r.end_date_inclusive
  pub exclusive : day_number r.end_date_exclusive ≡ day_number r.end_date_inclusive + 1

-- For a date of the calendar from the year 100 on, the list's range begins the clamped number of
-- days earlier, ends in the month that is the clamped number of months later on no later day of
-- the month, has today in it, and its exclusive end is the day after its inclusive end; all three
-- are dates of the calendar.
pub build_task_list_range-IsRange :
    (now : Date) (past_days future_months : Option ℤ)
    → IsDate now
    → 1200 ≤ now.months
    → IsRange now
        (normalize_past_days past_days)
        (normalize_future_months future_months)
        (build_task_list_range now past_days future_months)
unfolding build_task_list_range days_earlier
build_task_list_range-IsRange now past_days future_months v modern =
    let p = normalize_past_days past_days in
    let f = normalize_future_months future_months in
    let few = normalize_past_days-bounds past_days in
    let (back, bd) =
      borrow_lem (suc p) now.months now.day p v.from_first v.to_last (omega arith)
        (omega (arith, few, v.from_first)) in
    let (fd, fm, fday, later) = add_months_clamped_lem now f v in
    let e = add_months_clamped now f in
    let (next, nd) = day_number-new_date e.months (e.day + 1) (omega arith) in
    record {
      dates = (bd, fd, nd);
      start = back;
      target_month = fm;
      target_day = fday;
      has_today = later;
      exclusive = omega (arith, next, fd.from_first);
    }
