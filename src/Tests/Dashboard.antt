-- ===== src/Tests/Dashboard.antt =====
-- The dashboard at concrete dates, times and names.
use clip_to_doc_archive.Json.{decimal}
use clip_to_doc_archive.Prelude.Int.{pos}
use clip_to_doc_archive.Dashboard.Dates.{
  Date, IsDate, days_before, get_day, date_key_from_date, pad2, month_length,
}
use clip_to_doc_archive.Dashboard.Calendar.{months_of, build_calendar_cells}
use clip_to_doc_archive.Dashboard.Weeks.{IsCalendar, build_calendar_cells-IsCalendar}
use clip_to_doc_archive.Dashboard.Ranges.{
  build_task_list_range, normalize_past_days, normalize_future_months,
}
use clip_to_doc_archive.Dashboard.RangeDays.{IsRange, build_task_list_range-IsRange}
use clip_to_doc_archive.Dashboard.Colors.{normalize_hex_color}
use clip_to_doc_archive.Dashboard.Timeline.{Milestone, screen, build_timeline_layout}
use clip_to_doc_archive.Dashboard.Lanes.{has_room, build_timeline_layout-has_room}
use clip_to_doc_archive.Prelude.{
  ◌≡◌, refl, true, Option, none, some, List, [], ◌∷◌, map, arith, nat_eq, list_eq, length,
}
use clip_to_doc_archive.Text.{Text, codes, trim}

-- The 26th of November 2026 is a Thursday.
weekday : get_day (record { months = months_of 2026 11; day = 26 }) ≡ 4
unfolding days_before
weekday = refl

key : date_key_from_date (record { months = months_of 2026 3; day = 7 }) ≡ codes "2026-03-07"
unfolding date_key_from_date pad2 decimal
key = refl

february : length (build_calendar_cells 2026 2) ≡ 28
unfolding build_calendar_cells days_before month_length
february = refl

hex : normalize_hex_color (some (codes " #0aF ")) ≡ some (codes "#00AAFF")
unfolding normalize_hex_color trim
hex = refl

build_calendar_cells-IsCalendar_example :
    IsCalendar (months_of 2026 11) (build_calendar_cells 2026 11)
build_calendar_cells-IsCalendar_example =
    build_calendar_cells-IsCalendar 2026 11 (omega arith) (omega arith) (omega arith)

abbrev today : Date
today = record { months = months_of 2024 12; day = 31 }

today-IsDate : IsDate today
unfolding month_length
today-IsDate = record { from_first = omega arith; to_last = omega arith }

build_task_list_range-IsRange_example :
    IsRange today
      (normalize_past_days (some (pos 400)))
      (normalize_future_months none)
      (build_task_list_range today (some (pos 400)) none)
build_task_list_range-IsRange_example =
    build_task_list_range-IsRange today (some (pos 400)) none today-IsDate (omega arith)

abbrev stored_color : Text → Option Text
stored_color category = some (codes "#12g")

abbrev milestones : List Milestone
milestones =
    record { start = 0; end = 100; title_length = 4 }
    ∷ record { start = 200; end = 250; title_length = 4 }
    ∷ record { start = 900; end = 950; title_length = 4 }
    ∷ []

lanes : map (λ p. p.lane) (build_timeline_layout 1 screen milestones) ≡ 0 ∷ 1 ∷ 0 ∷ []
unfolding build_timeline_layout
lanes = refl

build_timeline_layout-has_room_example :
    has_room 1 (build_timeline_layout 1 screen milestones) ≡ true
build_timeline_layout-has_room_example = build_timeline_layout-has_room 1 screen milestones
