-- ===== src/Dashboard/Weeks.antt =====
-- Laws of the calendar as a whole (`buildCalendarCells` in
-- components/dashboard/DashboardSummary.tsx).
use mathlib.Core.List.{map-append}
use clip_to_doc_archive.Dashboard.Dates.{
  Date, IsDate, get_day, new_date, day_number, days_before, days_before-suc, month_length,
  month_length-bounds,
}
use clip_to_doc_archive.Dashboard.Calendar.{
  Cell, months_of, leading_cells, month_cells, trailing_cells, calendar_of, build_calendar_cells,
}
use clip_to_doc_archive.Dashboard.Cells.{
  days_from, cell_of, same_month, days_from-append, days_from-within, after_days-end,
  leading_cells_lem, month_cells_lem, trailing_cells_lem,
}
use clip_to_doc_archive.Prelude.{
  subst, ap₂, ℕ, zero, suc, ◌+◌, ◌-◌, ◌%◌, ◌≤◌, ◌<◌, ◌≡◌, refl, sym, ap, ◌∙◌, List, ◌++◌, map,
  arith, nat_eq, list_eq,
}

-- Whole weeks of consecutive days, from a Sunday in the week of the first of the month to a
-- Saturday in the week of its last day.
pub record IsCalendar (months : ℕ) (cells : List Cell) : Type 0 where
  pub start : Date
  pub count : ℕ
  pub days : cells ≡ map (cell_of months) (days_from start count)
  pub date : IsDate start
  pub sunday : get_day start ≡ 0
  pub weeks : count % 7 ≡ 0
  pub first_week : day_number start ≤ days_before months
  pub first_week_end : days_before months < day_number start + 7
  pub last_week : days_before months + month_length months ≤ day_number start + count
  pub last_week_end : day_number start + count < days_before months + month_length months + 7

-- The first day shown.
abbrev first_shown : (m w : ℕ) → Date
first_shown m zero = record { months = suc m; day = 1 }
first_shown m (suc w) = record { months = m; day = month_length m - suc w + 1 }

day_number-first_shown : (m w : ℕ) → w < 28 → day_number (first_shown m w) + w ≡ days_before (suc m)
day_number-first_shown m zero h = omega arith
day_number-first_shown m (suc w) h =
    let b = month_length-bounds m in omega (arith, days_before-suc m, b.0)

first_shown-IsDate : (m w : ℕ) → w < 28 → IsDate (first_shown m w)
first_shown-IsDate m zero h = record {
  from_first = omega arith;
  to_last = let b = month_length-bounds (suc m) in omega (arith, b.0);
}
first_shown-IsDate m (suc w) h = record {
  from_first = omega arith;
  to_last = let b = month_length-bounds m in omega (arith, b.0);
}

-- The days of the month and of the next one.
days_from-first :
    (m l more : ℕ)
    → l ≡ month_length (suc m)
    → more ≤ 6
    → days_from (record { months = suc m; day = 1 }) (l + more)
      ≡ same_month (suc m) 1 l ++ same_month (suc (suc m)) 1 more
days_from-first m zero more e few =
    let b = month_length-bounds (suc m) in absurd (omega (arith, b.0))
days_from-first m (suc l) more e few =
    let b = month_length-bounds (suc (suc m)) in
    days_from-append (record { months = suc m; day = 1 }) (suc l) more
    ∙ ap₂ ◌++◌ (days_from-within (suc m) 1 (suc l) (omega arith)) (
        ap (λ d. days_from d more) (after_days-end (suc m) 1 l (omega arith))
        ∙ days_from-within (suc (suc m)) 1 more (omega (arith, b.0)))

days_from-first_shown :
    (m w l more : ℕ)
    → w < 28
    → l ≡ month_length (suc m)
    → more ≤ 6
    → days_from (first_shown m w) (w + (l + more))
      ≡ same_month m (month_length m - w + 0 + 1) w
        ++ (same_month (suc m) 1 l ++ same_month (suc (suc m)) 1 more)
days_from-first_shown m zero l more h e few =
    let z : 0 + (l + more) ≡ l + more = omega arith in
    ap (days_from (record { months = suc m; day = 1 })) z ∙ days_from-first m l more e few
days_from-first_shown m (suc w) l more h e few =
    let b = month_length-bounds m in
    let z : month_length m - suc w + 0 + 1 ≡ month_length m - suc w + 1 = omega arith in
    days_from-append (first_shown m (suc w)) (suc w) (l + more)
    ∙ ap₂ ◌++◌
        (days_from-within m (month_length m - suc w + 1) (suc w) (omega (arith, b.0))
          ∙ ap (λ k. same_month m k (suc w)) (sym z))
        (ap (λ d. days_from d (l + more))
            (after_days-end m (month_length m - suc w + 1) w (omega (arith, b.0)))
          ∙ days_from-first m l more e few)

parts :
    (m w l : ℕ)
    → w < 7
    → l ≡ month_length (suc m)
    → (w ≡ (days_before (suc m) + 6) % 7)
    → IsCalendar (suc m) (
        leading_cells (suc m) (month_length m) w w 0
        ++ (month_cells (suc m) l 1 ++ trailing_cells (suc m) (w + l) 7 (w + l)))
parts m w l h e weekday =
    let b = month_length-bounds m in
    let (more, whole, few, t) =
      trailing_cells_lem (suc m) (w + l) 7 (w + l) (omega arith) (omega arith) (omega arith) in
    let one : w + l - (w + l) + 1 ≡ 1 = omega arith in
    let n = day_number-first_shown m w (omega arith) in
    record {
      start = first_shown m w;
      count = w + (l + more);
      days =
          ap₂ ◌++◌
            (leading_cells_lem m (month_length m) w w 0 refl (omega arith) (omega (arith, b.0)))
            (ap₂ ◌++◌ (month_cells_lem (suc m) l 1 (omega arith) (omega (arith, e)))
              (t ∙ ap (λ k. map (cell_of (suc m)) (same_month (suc (suc m)) k more)) one))
          ∙ sym (
              ap (map (cell_of (suc m)))
                (days_from-first_shown m w l more (omega arith) e (omega (arith, few)))
              ∙ map-append (cell_of (suc m)) (same_month m (month_length m - w + 0 + 1) w) _
              ∙ ap (λ r. map (cell_of (suc m)) (same_month m (month_length m - w + 0 + 1) w) ++ r)
                  (map-append (cell_of (suc m)) (same_month (suc m) 1 l)
                    (same_month (suc (suc m)) 1 more)));
      date = first_shown-IsDate m w (omega arith);
      sunday = omega (arith, n, weekday);
      weeks = omega (arith, whole);
      first_week = omega (arith, n);
      first_week_end = omega (arith, n);
      last_week = omega (arith, n, e);
      last_week_end = omega (arith, n, e, few);
    }

calendar_of-IsCalendar : (m : ℕ) → IsCalendar (suc m) (calendar_of (suc m))
unfolding calendar_of new_date
calendar_of-IsCalendar m =
    let w = get_day (new_date (suc m) 1) in
    let l = (new_date (suc m + 1) 0).day in
    let before : (new_date (suc m) 0).day ≡ month_length m =
      let e : suc m - 1 ≡ m = omega arith in ap month_length e in
    let last : l ≡ month_length (suc m) =
      let e : suc m + 1 - 1 ≡ suc m = omega arith in ap month_length e in
    let weekday : w ≡ (days_before (suc m) + 6) % 7 = omega arith in
    subst
      (λ p. IsCalendar (suc m) (
        leading_cells (suc m) p w w 0
        ++ (month_cells (suc m) l 1 ++ trailing_cells (suc m) (w + l) 7 (w + l))))
      (sym before) (parts m w l (omega arith) last weekday)

-- For a year from 100 on and a month from 1 to 12, the calendar's cells are those of consecutive
-- days in whole weeks, from the Sunday on or before the first of the month to the Saturday on or
-- after its last day, each with the key of its date, its day, and whether it is in the month.
pub build_calendar_cells-IsCalendar :
    (year month : ℕ)
    → 100 ≤ year
    → 1 ≤ month
    → month ≤ 12
    → IsCalendar (months_of year month) (build_calendar_cells year month)
unfolding build_calendar_cells
build_calendar_cells-IsCalendar year month y lo hi =
    let e : suc (months_of year month - 1) ≡ months_of year month = omega arith in
    subst (λ n. IsCalendar n (calendar_of n)) e (calendar_of-IsCalendar (months_of year month - 1))
