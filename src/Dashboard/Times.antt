-- ===== src/Dashboard/Times.antt =====
-- Times of the day as texts (`isValidTime`, `addMinutesToTime`).
use clip_to_doc_archive.Dashboard.Dates.{pad2}
use clip_to_doc_archive.Prelude.{
  ℕ, ◌+◌, ◌-◌, ◌*◌, ◌/◌, ◌%◌, Bool, false, not, ◌&&◌, ◌||◌, [], ◌∷◌, ◌++◌, leb, nat_beq,
  if◌then◌else◌, nat_eq, list_eq,
}
use clip_to_doc_archive.Text.{Text}

abbrev pub is_digit_up_to : ℕ → ℕ → Bool
is_digit_up_to most c = leb 48 c && leb c (48 + most)

-- `/^(?:[01]\d|2[0-3]):[0-5]\d$/.test(value)`
abbrev pub is_valid_time : Text → Bool
is_valid_time (a ∷ b ∷ colon ∷ c ∷ d ∷ []) =
    ((is_digit_up_to 1 a && is_digit_up_to 9 b) || (nat_beq a b'2' && is_digit_up_to 3 b))
    && nat_beq colon b':'
    && is_digit_up_to 5 c
    && is_digit_up_to 9 d
is_valid_time _ = false

-- `Number(hourRaw)` and `Number(minuteRaw)`, together the minutes since midnight.
abbrev pub minutes_of : Text → ℕ
minutes_of (a ∷ b ∷ colon ∷ c ∷ d ∷ []) =
    ((a - 48) * 10 + (b - 48)) * 60 + ((c - 48) * 10 + (d - 48))
minutes_of _ = 0

abbrev pub time_text : ℕ → Text
time_text minutes = pad2 (minutes / 60) ++ b':' ∷ pad2 (minutes % 60)

-- The minutes that are added are not negative.
unfoldable pub add_minutes_to_time : Text → ℕ → Text
unfolding pad2
add_minutes_to_time value minutes =
    if not (is_valid_time value)
    then []
    else time_text ((minutes_of value + minutes + 24 * 60) % (24 * 60))
