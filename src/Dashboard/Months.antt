-- ===== src/Dashboard/Months.antt =====
-- Moving the calendar by months.
use clip_to_doc_archive.Dashboard.Dates.{new_date}
use clip_to_doc_archive.Dashboard.Calendar.{move_month_forward, move_month_back}
use clip_to_doc_archive.Prelude.{ℕ, ◌+◌, ◌-◌, ◌*◌, ◌/◌, ◌%◌, ◌≤◌, ◌≡◌, arith, nat_eq, list_eq}

-- For a month from 1 to 12, moving the calendar forward by any number of months and back by as
-- many gives the first of the month that was shown.
move_month_back-forward :
    (year month delta : ℕ)
    → 1 ≤ month
    → month ≤ 12
    → (move_month_back
          ((move_month_forward year month delta).months / 12)
          ((move_month_forward year month delta).months % 12 + 1)
          delta
        ≡ record { months = 12 * year + month - 1; day = 1 })
unfolding move_month_forward move_month_back new_date
move_month_back-forward year month delta lo hi =
    let e : 12 * ((12 * year + (month - 1) + delta) / 12)
          + ((12 * year + (month - 1) + delta) % 12 + 1 - 1)
          - delta
        ≡ 12 * year + month - 1 =
      omega arith in
    λ i. record { months = e i; day = 1 }
