-- ===== src/Dashboard/Cells.antt =====
-- The three loops of the calendar (`buildCalendarCells` in
-- components/dashboard/DashboardSummary.tsx), each compared with consecutive days.
use clip_to_doc_archive.Dashboard.Dates.{Date, new_date, month_length, month_length-bounds}
use clip_to_doc_archive.Dashboard.Calendar.{Cell, cell, leading_cells, month_cells, trailing_cells}
use clip_to_doc_archive.Prelude.{
  ap₂, ℕ, zero, suc, ◌+◌, ◌-◌, ◌%◌, ◌≤◌, ◌<◌, ◌≡◌, refl, sym, ap, ◌∙◌, ◌≢◌, inl, inr, true, false,
  List, [], ◌∷◌, ◌++◌, map, arith, ltb, leb, nat_beq, if◌then◌else◌, Bool-cases, nat_eq, list_eq,
}

abbrev pub next_day : Date → Date
next_day d =
    if ltb d.day (month_length d.months)
    then record { months = d.months; day = d.day + 1 }
    else record { months = d.months + 1; day = 1 }

abbrev pub days_from : Date → ℕ → List Date
days_from d zero = []
days_from d (suc count) = d ∷ days_from (next_day d) count

abbrev pub after_days : Date → ℕ → Date
after_days d zero = d
after_days d (suc count) = after_days (next_day d) count

-- What the calendar of a month shows of a day.
abbrev pub cell_of : (months : ℕ) → Date → Cell
cell_of months d = cell d (nat_beq d.months months) d.day

pub new_date_in_month :
    (m day : ℕ) → 1 ≤ day → day ≤ month_length m → new_date m day ≡ record { months = m; day = day }
unfolding new_date
new_date_in_month m zero h k = absurd (omega arith)
new_date_in_month m (suc zero) h k = refl
new_date_in_month m (suc (suc day)) h k =
    let e : leb (suc (suc day)) (month_length m) ≡ true = ground arith in rw e refl

pub days_from-append :
    (d : Date) (a b : ℕ) → days_from d (a + b) ≡ days_from d a ++ days_from (after_days d a) b
days_from-append d zero b = let e : 0 + b ≡ b = omega arith in ap (days_from d) e
days_from-append d (suc a) b =
    let e : suc a + b ≡ suc (a + b) = omega arith in
    ap (days_from d) e ∙ ap (◌∷◌ d) (days_from-append (next_day d) a b)

abbrev pub same_month : (m day count : ℕ) → List Date
same_month m day zero = []
same_month m day (suc count) = record { months = m; day = day } ∷ same_month m (suc day) count

next_day-within :
    (m day : ℕ)
    → day < month_length m
    → next_day (record { months = m; day = day }) ≡ record { months = m; day = suc day }
next_day-within m day h =
    let inside : ltb day (month_length m) ≡ true = ground arith in
    let e : day + 1 ≡ suc day = omega arith in rw inside (λ i. record { months = m; day = e i })

next_day-last :
    (m day : ℕ)
    → day ≡ month_length m
    → next_day (record { months = m; day = day }) ≡ record { months = suc m; day = 1 }
next_day-last m day h =
    let outside : ltb day (month_length m) ≡ false = ground arith in
    let e : m + 1 ≡ suc m = omega arith in rw outside (λ i. record { months = e i; day = 1 })

pub days_from-within :
    (m day count : ℕ)
    → day + count ≤ suc (month_length m)
    → days_from (record { months = m; day = day }) count ≡ same_month m day count
days_from-within m day zero h = refl
days_from-within m day (suc zero) h = refl
days_from-within m day (suc (suc count)) h = ap (◌∷◌ (record { months = m; day = day })) (
    ap (λ d. days_from d (suc count)) (next_day-within m day (omega arith))
    ∙ days_from-within m (suc day) (suc count) (omega arith))

pub after_days-end :
    (m day count : ℕ)
    → day + count ≡ month_length m
    → after_days (record { months = m; day = day }) (suc count) ≡ record { months = suc m; day = 1 }
after_days-end m day zero h = next_day-last m day (omega arith)
after_days-end m day (suc count) h =
    ap (λ d. after_days d (suc count)) (next_day-within m day (omega arith))
    ∙ after_days-end m (suc day) count (omega arith)

pub leading_cells_lem :
    (m p w rounds i : ℕ)
    → p ≡ month_length m
    → i + rounds ≡ w
    → w < p
    → leading_cells (suc m) p w rounds i
      ≡ map (cell_of (suc m)) (same_month m (p - w + i + 1) rounds)
unfolding leading_cells
leading_cells_lem m p w zero i e n h = refl
leading_cells_lem m p w (suc rounds) i e n h =
    let day : new_date (suc m - 1) (p - w + i + 1) ≡ record { months = m; day = p - w + i + 1 } =
      ap (λ k. new_date k (p - w + i + 1)) (omega arith)
      ∙ new_date_in_month m (p - w + i + 1) (omega arith) (omega arith) in
    let other : nat_beq m (suc m) ≡ false = ground arith in
    let step : p - w + suc i + 1 ≡ suc (p - w + i + 1) = omega arith in
    rw day (
      ap₂ ◌∷◌ (λ j. cell (record { months = m; day = p - w + i + 1 }) (sym other j) (p - w + i + 1))
        (leading_cells_lem m p w rounds (suc i) e (omega arith) h
          ∙ ap (λ k. map (cell_of (suc m)) (same_month m k rounds)) step))

pub month_cells_lem :
    (m rounds day : ℕ)
    → 1 ≤ day
    → day + rounds ≤ suc (month_length m)
    → month_cells m rounds day ≡ map (cell_of m) (same_month m day rounds)
unfolding month_cells
month_cells_lem m zero day h k = refl
month_cells_lem m (suc rounds) day h k =
    let same : nat_beq m m ≡ true = ground arith in
    rw (new_date_in_month m day h (omega arith)) (
      ap₂ ◌∷◌ (λ j. cell (record { months = m; day = day }) (sym same j) day)
        (month_cells_lem m rounds (suc day) (omega arith) (omega arith)))

-- The loop ends at the end of a week.
pub trailing_cells_lem :
    (m filled rounds count : ℕ)
    → filled ≤ count
    → count + rounds ≤ filled + 7
    → (7 - count % 7) % 7 ≤ rounds
    → (more : ℕ) × ((count + more) % 7 ≡ 0)
      × (more ≡ (7 - count % 7) % 7)
      × (trailing_cells m filled rounds count
          ≡ map (cell_of m) (same_month (suc m) (count - filled + 1) more))
unfolding trailing_cells
trailing_cells_lem m filled zero count h k w = (0, omega arith, omega arith, refl)
trailing_cells_lem m filled (suc rounds) count h k w = elim (Bool-cases (nat_beq (count % 7) 0)) [
  | inl whole ↦
      let z : count % 7 ≡ 0 = ground arith in (0, omega (arith, z), omega (arith, z), rw whole refl)
  | inr broken ↦
      let b : count % 7 ≢ 0 = ground arith in
      let w' : (7 - suc count % 7) % 7 ≤ rounds = omega (arith, b, w) in
      let (more, weeks, few, e) =
        trailing_cells_lem m filled rounds (suc count) (omega arith) (omega arith) w' in
      let bounds = month_length-bounds (suc m) in
      let day : new_date (m + 1) (count - filled + 1)
          ≡ record { months = suc m; day = count - filled + 1 } =
        ap (λ k. new_date k (count - filled + 1)) (omega arith)
        ∙ new_date_in_month (suc m) (count - filled + 1) (omega arith) (omega (arith, bounds.0)) in
      let other : nat_beq (suc m) m ≡ false = ground arith in
      let step : suc count - filled + 1 ≡ suc (count - filled + 1) = omega arith in
      (
        suc more,
        omega (arith, weeks),
        omega (arith, few, b),
        rw (broken, day)
            (ap₂ ◌∷◌
              (λ j.
                cell (record { months = suc m; day = count - filled + 1 }) (sym other j)
                  (count - filled + 1))
              (e ∙ ap (λ k. map (cell_of m) (same_month (suc m) k more)) step)),
      )
]
