-- ===== src/Dashboard/TimeSums.antt =====
-- Laws of adding minutes to a time (`addMinutesToTime` in
-- components/dashboard/DashboardSummary.tsx).
use clip_to_doc_archive.Json.{decimal_of_one_digit, decimal_of_two_digits}
use clip_to_doc_archive.Dashboard.Dates.{pad2}
use clip_to_doc_archive.Dashboard.Times.{is_valid_time, minutes_of, time_text, add_minutes_to_time}
use clip_to_doc_archive.Prelude.{
  ℕ, ◌+◌, ◌*◌, ◌/◌, ◌%◌, ◌≤◌, ◌<◌, ◌≡◌, refl, sym, ap, ◌∙◌, inl, inr, true, [], ◌∷◌, arith, ltb,
  Bool-cases, nat_eq, list_eq,
}
use clip_to_doc_archive.Text.{Text}

pad2_lem : (v : ℕ) → v < 100 → pad2 v ≡ (48 + v / 10) ∷ (48 + v % 10) ∷ []
unfolding pad2
pad2_lem v h = elim (Bool-cases (ltb v 10)) [
  | inl small ↦
      let low : v < 10 = ground arith in
      let tens : 48 ≡ 48 + v / 10 = omega arith in
      let ones : 48 + v ≡ 48 + v % 10 = omega arith in
      rw (small, decimal_of_one_digit v low) (λ i. tens i ∷ ones i ∷ [])
  | inr large ↦ let high : 10 ≤ v = ground arith in rw (large, decimal_of_two_digits v high h) refl
]

time_digits-IsValid :
    (h m : ℕ)
    → h < 24
    → m < 60
    → is_valid_time ((48 + h / 10) ∷ (48 + h % 10) ∷ b':' ∷ (48 + m / 10) ∷ (48 + m % 10) ∷ [])
      ≡ true
time_digits-IsValid h m a b = ground arith

time_text_lem :
    (minutes : ℕ)
    → minutes < 1440
    → (is_valid_time (time_text minutes) ≡ true) × (minutes_of (time_text minutes) ≡ minutes)
time_text_lem minutes h =
    rw (pad2_lem (minutes / 60) (omega arith), pad2_lem (minutes % 60) (omega arith))
      (time_digits-IsValid (minutes / 60) (minutes % 60) (omega arith) (omega arith), omega arith)

-- Adding minutes to a valid time gives a valid time, whose minutes since midnight are the sum
-- modulo the minutes of a day.
is_valid_time-add_minutes :
    (value : Text) (minutes : ℕ)
    → is_valid_time value ≡ true
    → (is_valid_time (add_minutes_to_time value minutes) ≡ true)
      × (minutes_of (add_minutes_to_time value minutes) ≡ (minutes_of value + minutes) % 1440)
unfolding add_minutes_to_time
is_valid_time-add_minutes value minutes h =
    let t = time_text_lem ((minutes_of value + minutes + 24 * 60) % (24 * 60)) (omega arith) in
    rw h (t.0, t.1 ∙ omega arith)

-- Adding minutes to a valid time twice is adding their sum once, also round midnight.
add_minutes-add_minutes :
    (value : Text) (m n : ℕ)
    → is_valid_time value ≡ true
    → add_minutes_to_time (add_minutes_to_time value m) n ≡ add_minutes_to_time value (m + n)
unfolding add_minutes_to_time
add_minutes-add_minutes value m n h =
    let (v, s) = is_valid_time-add_minutes value m h in
    let same : (minutes_of (add_minutes_to_time value m) + n + 24 * 60) % (24 * 60)
        ≡ (minutes_of value + (m + n) + 24 * 60) % (24 * 60) =
      omega (arith, s) in
    sum (add_minutes_to_time value m) v ∙ ap time_text same ∙ sym (sum' value h)
  where
    sum :
        (t : Text)
        → is_valid_time t ≡ true
        → add_minutes_to_time t n ≡ time_text ((minutes_of t + n + 24 * 60) % (24 * 60))
    sum t v = rw v refl

    sum' :
        (t : Text)
        → is_valid_time t ≡ true
        → add_minutes_to_time t (m + n) ≡ time_text ((minutes_of t + (m + n) + 24 * 60) % (24 * 60))
    sum' t v = rw v refl
