-- ===== src/Dashboard/Dates.antt =====
-- Local dates as `Date` has them: the months since January of the year 0, and the day of the month.
use clip_to_doc_archive.Prelude.{
  ℕ, zero, suc, ◌+◌, ◌-◌, ◌*◌, ◌/◌, ◌%◌, ◌≤◌, ◌≡◌, inl, inr, Bool, not, ◌&&◌, ◌||◌, ◌∷◌, ◌++◌,
  arith, ltb, leb, nat_beq, if◌then◌else◌, Bool-cases, nat_eq, list_eq,
}
use clip_to_doc_archive.Text.{Text}
use clip_to_doc_archive.Json.{decimal}

pub record Date : Type 0 where
  pub months : ℕ
  pub day : ℕ

abbrev pub is_leap : ℕ → Bool
is_leap year = (nat_beq (year % 4) 0 && not (nat_beq (year % 100) 0)) || nat_beq (year % 400) 0

abbrev pub month_days : Bool → ℕ → ℕ
month_days leap month =
    if nat_beq month 1
    then (if leap then 29 else 28)
    else if nat_beq month 3 || nat_beq month 5 || nat_beq month 8 || nat_beq month 10
    then 30
    else 31

-- The days of the year before its month.
abbrev pub month_start : Bool → ℕ → ℕ
month_start leap zero = 0
month_start leap (suc month) = month_start leap month + month_days leap month

-- The days before the year.
unfoldable pub year_start : ℕ → ℕ
year_start year = 365 * year + (year + 3) / 4 + (year + 399) / 400 - (year + 99) / 100

unfoldable pub month_length : ℕ → ℕ
month_length months = month_days (is_leap (months / 12)) (months % 12)

unfoldable pub days_before : ℕ → ℕ
unfolding year_start
days_before months = year_start (months / 12) + month_start (is_leap (months / 12)) (months % 12)

-- The number of a day; two dates a day apart have numbers that differ by one.
abbrev pub day_number : Date → ℕ
day_number d = days_before d.months + (d.day - 1)

-- `getDay()`: 0 is Sunday. The 1st of January 2000 was a Saturday.
abbrev pub get_day : Date → ℕ
get_day d = (day_number d + 6) % 7

-- `new Date(year, month, day)` for a day that is not negative: day 0 is the last of the month
-- before, and days beyond the month's end run on into the next ones.
abbrev pub carry : ℕ → (months day : ℕ) → Date
carry zero months day = record { months = months; day = day }
carry (suc fuel) months day =
    let later = carry fuel (suc months) (day - month_length months) in
    if leb day (month_length months) then record { months = months; day = day } else later

unfoldable pub new_date : (months day : ℕ) → Date
unfolding month_length
new_date months zero = record { months = months - 1; day = month_length (months - 1) }
new_date months (suc day) = carry day months (suc day)

-- A date that the calendar has.
pub record IsDate (d : Date) : Type 0 where
  pub from_first : 1 ≤ d.day
  pub to_last : d.day ≤ month_length d.months

-- `String(v).padStart(2, "0")`
unfoldable pub pad2 : ℕ → Text
pad2 v = if ltb v 10 then 48 ∷ decimal v else decimal v

unfoldable pub month_key_from_date : Date → Text
month_key_from_date d = decimal (d.months / 12) ++ b'-' ∷ pad2 (d.months % 12 + 1)

unfoldable pub date_key_from_date : Date → Text
date_key_from_date d =
    decimal (d.months / 12) ++ b'-' ∷ (pad2 (d.months % 12 + 1) ++ b'-' ∷ pad2 d.day)

year_start-suc :
    (year : ℕ) → year_start (suc year) ≡ year_start year + month_start (is_leap year) 12
unfolding year_start
year_start-suc year = ground arith

month_days-bounds :
    (leap : Bool) (month : ℕ) → (28 ≤ month_days leap month) × (month_days leap month ≤ 31)
month_days-bounds leap month = ground arith

pub month_length-bounds : (months : ℕ) → (28 ≤ month_length months) × (month_length months ≤ 31)
unfolding month_length
month_length-bounds months = month_days-bounds (is_leap (months / 12)) (months % 12)

pub days_before-suc :
    (months : ℕ) → days_before (suc months) ≡ days_before months + month_length months
unfolding days_before month_length
days_before-suc months = elim (Bool-cases (ltb (months % 12) 11)) [
  | inl within_year ↦
      let y : suc months / 12 ≡ months / 12 = ground arith in
      let m : suc months % 12 ≡ suc (months % 12) = ground arith in rw (y, m) (omega arith)
  | inr december ↦
      let y : suc months / 12 ≡ suc (months / 12) = ground arith in
      let m : suc months % 12 ≡ 0 = ground arith in
      let m' : months % 12 ≡ 11 = ground arith in
      rw (y, m, m') (omega (arith, year_start-suc (months / 12)))
]
