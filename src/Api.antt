-- ===== src/Api.antt =====
-- The client of the service (lib/api-client.ts): addresses, outcomes of a request, messages of its
-- errors, and the progress of an upload. `parse` is JSON.parse, `none` where it throws, and
-- `stringify` is JSON.stringify.
pub mod Outcomes
use clip_to_doc_archive.Json.{
  Value, null, bool, num, str, arr, obj, Fields, end, property, decimal, show,
}
use clip_to_doc_archive.Prelude.{
  ℕ, ◌+◌, ◌*◌, ◌/◌, min, max, Bool, true, false, not, ◌||◌, Option, none, some, [], ◌∷◌, ◌++◌, ltb,
  leb, nat_beq, if◌then◌else◌, is_empty,
}
use clip_to_doc_archive.Text.{Text, codes, is_space, trim}

abbrev pub build_api_url : (api_base path : Text) → Text
build_api_url api_base path = api_base ++ path

-- `\s+` becomes one space, then the ends are trimmed.
abbrev pub one_space : Bool → Text → Text
one_space before [] = []
one_space before (c ∷ s) =
    let more = one_space true s in
    let rest = one_space false s in
    if is_space c then (if before then more else 32 ∷ more) else c ∷ rest

unfoldable pub compact : Text → Text
unfolding trim
compact s = trim (one_space false s)

-- A response that has come; reading its text may throw.
pub record Response : Type 0 where
  pub ok : Bool
  pub status : ℕ
  pub text : Option Text

-- A request returns its value, or throws an error with a message.
pub data Outcome : Type 0 where
  returned : Value → Outcome
  failed : Text → Outcome

abbrev pub api_error : ℕ → Text
api_error status = codes "API error: " ++ decimal status

abbrev pub with_detail : ℕ → Text → Text
with_detail status detail =
    if is_empty detail then api_error status else api_error status ++ 32 ∷ detail

-- `typeof xhr.responseText === "string" ? xhr.responseText : ""`
abbrev pub text_of : Option Text → Text
text_of none = []
text_of (some s) = s

module _ (parse : Text → Option Value) (stringify : Value → Text) where
  abbrev pub format_error_detail : Value → Text
  format_error_detail (str s) = s
  format_error_detail null = []
  format_error_detail (arr items) = stringify (arr items)
  format_error_detail (obj fields) = stringify (obj fields)
  format_error_detail v = show (some v)

  -- `parsed?.detail ?? parsed`
  abbrev pub detail_of : Value → Value
  detail_of parsed = elim (property parsed (codes "detail")) [
    | none ↦ parsed
    | some null ↦ parsed
    | some v ↦ v
  ]

  unfoldable pub parse_error_message_from_raw : ℕ → Text → Text
  unfolding compact
  parse_error_message_from_raw status raw_text =
      if is_empty raw_text then api_error status else elim (parse raw_text) [
        | some parsed ↦ with_detail status (format_error_detail (detail_of parsed))
        | none ↦ with_detail status (compact raw_text)
      ]

  unfoldable pub parse_error_message : Response → Text
  unfolding parse_error_message_from_raw
  parse_error_message res = elim res.text [
    | some raw ↦ parse_error_message_from_raw res.status raw
    | none ↦ api_error res.status
  ]

  -- `apiFetch`: the request itself may fail, and reading or parsing a good response may throw;
  -- `thrown` is the message of that error.
  unfoldable pub api_fetch : (thrown : Text) → Option Response → Outcome
  unfolding parse_error_message
  api_fetch thrown none = failed thrown
  api_fetch thrown (some res) =
      if not res.ok
      then failed (parse_error_message res)
      else if nat_beq res.status 204
      then returned (obj end)
      else elim res.text [
        | none ↦ failed thrown
        | some raw ↦
            if is_empty raw
            then returned (obj end)
            else elim (parse raw) [ none ↦ failed thrown | some v ↦ returned v ]
      ]

  -- `xhr.onload` and `xhr.onerror` (no response).
  unfoldable pub upload_outcome : Option Response → Outcome
  unfolding parse_error_message_from_raw
  upload_outcome none = failed (codes "네트워크 오류")
  upload_outcome (some res) =
      let raw = text_of res.text in
      if ltb res.status 200 || leb 300 res.status
      then failed (parse_error_message_from_raw res.status raw)
      else if is_empty raw
      then returned (obj end)
      else elim (parse raw) [
        | none ↦ failed (api_error res.status ++ codes " invalid JSON response")
        | some v ↦ returned v
      ]

pub record UploadProgress : Type 0 where
  pub loaded : ℕ
  pub total : ℕ
  pub percent : ℕ

-- `Math.round(loaded / total * 100)`, halves upwards.
unfoldable pub upload_progress :
    (length_computable : Bool) → (loaded event_total : ℕ) → UploadProgress
upload_progress length_computable loaded event_total =
    let total = if length_computable then event_total else 0 in
    record {
      loaded = loaded;
      total = total;
      percent = if ltb 0 total then max 0 (min 100 ((200 * loaded + total) / (2 * total))) else 0;
    }
