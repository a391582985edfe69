-- ===== src/Dashboard/Calendar.antt =====
-- The cells of the month's calendar (`buildCalendarCells`), behind the parsing of the month's key.
use clip_to_doc_archive.Dashboard.Dates.{Date, get_day, new_date, date_key_from_date}
use clip_to_doc_archive.Prelude.{
  ℕ, zero, suc, ◌+◌, ◌-◌, ◌*◌, ◌%◌, Bool, true, false, List, [], ◌∷◌, ◌++◌, nat_beq, if◌then◌else◌,
  nat_eq, list_eq,
}
use clip_to_doc_archive.Text.{Text}

pub record Cell : Type 0 where
  pub date_key : Text
  pub in_month : Bool
  pub day : ℕ

abbrev pub cell : Date → Bool → ℕ → Cell
cell date in_month day = record {
  date_key = date_key_from_date date;
  in_month = in_month;
  day = day;
}

-- `new Date(year, month - 1, …)`: the months of the date.
abbrev pub months_of : (year month : ℕ) → ℕ
months_of year month = 12 * year + (month - 1)

-- The days of the month before, from round `i` on.
unfoldable pub leading_cells : (months prev_last_day start_weekday : ℕ) → (rounds i : ℕ) → List Cell
leading_cells months prev_last_day start_weekday zero i = []
leading_cells months prev_last_day start_weekday (suc rounds) i =
    let date = new_date (months - 1) (prev_last_day - start_weekday + i + 1) in
    cell date false date.day ∷ leading_cells months prev_last_day start_weekday rounds (suc i)

unfoldable pub month_cells : (months : ℕ) → (rounds day : ℕ) → List Cell
month_cells months zero day = []
month_cells months (suc rounds) day =
    cell (new_date months day) true day ∷ month_cells months rounds (suc day)

-- `while (cells.length % 7 !== 0)`; seven rounds are enough. `filled` is `startWeekday + lastDay`.
unfoldable pub trailing_cells : (months filled : ℕ) → (rounds count : ℕ) → List Cell
trailing_cells months filled zero count = []
trailing_cells months filled (suc rounds) count =
    let date = new_date (months + 1) (count - filled + 1) in
    let rest = trailing_cells months filled rounds (suc count) in
    if nat_beq (count % 7) 0 then [] else cell date false date.day ∷ rest

-- The body of `buildCalendarCells`, for the months since the year 0.
unfoldable pub calendar_of : ℕ → List Cell
unfolding leading_cells month_cells trailing_cells new_date
calendar_of months =
    let start_weekday = get_day (new_date months 1) in
    let last_day = (new_date (months + 1) 0).day in
    let prev_last_day = (new_date months 0).day in
    let filled = start_weekday + last_day in
    leading_cells months prev_last_day start_weekday start_weekday 0
    ++ (month_cells months last_day 1 ++ trailing_cells months filled 7 filled)

unfoldable pub build_calendar_cells : (year month : ℕ) → List Cell
unfolding calendar_of
build_calendar_cells year month = calendar_of (months_of year month)

-- `moveMonthKey` on the year and the month of the key, for a step forward and a step back.
unfoldable pub move_month_forward : (year month delta : ℕ) → Date
move_month_forward year month delta = new_date (months_of year month + delta) 1

unfoldable pub move_month_back : (year month delta : ℕ) → Date
move_month_back year month delta = new_date (months_of year month - delta) 1
