-- ===== src/Archive/Documents.antt =====
-- Helpers of the archive's list (components/archive/ArchiveWorkspace.tsx): the hue of a category's
-- badge, the dates of a year or a month, the tags that are typed, and a document's badge.
use Prim.Native.Nat.{◌^◌}
use clip_to_doc_archive.Json.{decimal}
use clip_to_doc_archive.Rules.Tokens.{is_token_end}
use clip_to_doc_archive.Dashboard.Dates.{new_date, pad2}
use clip_to_doc_archive.Dashboard.Calendar.{months_of}
use clip_to_doc_archive.Prelude.{
  ℕ, ◌+◌, ◌-◌, ◌*◌, ◌%◌, Bool, not, ◌||◌, Option, none, some, List, [], ◌∷◌, ◌++◌, map, ltb,
  if◌then◌else◌, ◌==◌, nat_eq, list_eq, is_empty, keep_if, any,
}
use clip_to_doc_archive.Text.{Text, codes, trim, split, includes}

-- `h = (h << 5) - h + c; h |= 0`: a signed number of 32 bits, kept as its residue.
abbrev pub hash_step : ℕ → ℕ → ℕ
hash_step h c = (31 * h + c) % 2 ^ 32

abbrev pub hash_residue : ℕ → Text → ℕ
hash_residue h [] = h
hash_residue h (c ∷ s) = hash_residue (hash_step h c) s

-- `Math.abs(h)` of the signed number.
unfoldable pub hash_text : Text → ℕ
hash_text value = let h = hash_residue 0 value in if ltb h (2 ^ 31) then h else 2 ^ 32 - h

-- The hues of a category's badge: background, border and text.
unfoldable pub category_badge_hues : (Text → Text) → Option Text → Option (ℕ × ℕ × ℕ)
unfolding hash_text trim
category_badge_hues lower none = none
category_badge_hues lower (some category) =
    let hue = hash_text (lower (trim category)) % 360 in
    if is_empty (trim category) then none else some (hue, (hue + 4) % 360, (hue + 2) % 360)

unfoldable pub date_string : (year month day : ℕ) → Text
unfolding pad2
date_string year month day = decimal year ++ b'-' ∷ (pad2 month ++ b'-' ∷ pad2 day)

-- `from` and `to`; the months' last day is that of day 0 of the next one.
unfoldable pub year_month_range : ℕ → Option ℕ → Text × Text
unfolding date_string new_date
year_month_range year none = (date_string year 1 1, date_string year 12 31)
year_month_range year (some month) =
    (date_string year month 1, date_string year month (new_date (months_of year month + 1) 0).day)

unfoldable pub parse_tag_input : Text → List Text
unfolding trim split
parse_tag_input value =
    keep_if (λ token. not (is_empty token)) (map trim (split is_token_end value))

-- `upper` is `toUpperCase`.
abbrev pub is_error_reason : (Text → Text) → Text → Bool
is_error_reason upper reason =
    let loud = upper reason in
    includes loud (codes "ERROR")
    || includes loud (codes "FAIL")
    || includes loud (codes "EXCEPTION")

pub data StatusTone : Type 0 where
  new review error resolved normal : StatusTone

abbrev pub status_badge_for_document :
    (Text → Text) → (review_status : Text) → (review_reasons : List Text) → StatusTone × Text
status_badge_for_document upper review_status review_reasons =
    if any (is_error_reason upper) review_reasons
    then (error, codes "오류")
    else if review_status == codes "NEEDS_REVIEW"
    then (review, codes "검토필요")
    else if review_status == codes "RESOLVED"
    then (resolved, codes "검토완료")
    else (normal, codes "정상")
