-- ===== src/Api/Outcomes.antt =====
-- Laws of the outcomes of requests and uploads (lib/api-client.ts).
use clip_to_doc_archive.Json.{Value, obj, end}
use clip_to_doc_archive.Api.{
  Response, Outcome, text_of, returned, failed, api_error, with_detail,
  parse_error_message_from_raw, upload_outcome, upload_progress, format_error_detail, detail_of,
  compact,
}
use clip_to_doc_archive.Prelude.{
  ℕ, ◌≤◌, ◌<◌, ◌≡◌, refl, sym, ◌⊎◌, inl, inr, Bool, false, ◌||◌, Option, none, some, [], ◌∷◌, ◌++◌,
  arith, ltb, leb, Bool-cases, Option-cases, nat_eq, list_eq, is_empty, append-nil,
}
use clip_to_doc_archive.Text.{Text, codes}

-- The message begins with the status.
abbrev pub HasStatus : ℕ → Text → Type 0
HasStatus status message = (rest : Text) × (message ≡ api_error status ++ rest)

with_detail-HasStatus : (status : ℕ) (detail : Text) → HasStatus status (with_detail status detail)
with_detail-HasStatus status detail = elim (Bool-cases (is_empty detail)) [
  | inl blank ↦ rw blank ([], sym (append-nil (api_error status)))
  | inr filled ↦ rw filled (32 ∷ detail, refl)
]

text_there : (t : Option Text) → is_empty (text_of t) ≡ false → t ≡ some (text_of t)
text_there none h = cc
text_there (some s) h = refl

module _ (parse : Text → Option Value) (stringify : Value → Text) where
  parse_error-HasStatus :
      (status : ℕ) (raw : Text)
      → HasStatus status (parse_error_message_from_raw parse stringify status raw)
  unfolding parse_error_message_from_raw
  parse_error-HasStatus status raw = elim (Bool-cases (is_empty raw)) [
    | inl blank ↦ rw blank ([], sym (append-nil (api_error status)))
    | inr filled ↦ elim (Option-cases (parse raw)) [
      | inl broken ↦ rw (filled, broken) (with_detail-HasStatus status (compact raw))
      | inr (v, good) ↦
          rw (filled, good)
            (with_detail-HasStatus status
              (format_error_detail parse stringify (detail_of parse stringify v)))
    ]
  ]

  -- What an upload that was answered comes to.
  abbrev pub IsUploaded : Response → Outcome → Type 0
  IsUploaded res (returned v) =
      (200 ≤ res.status)
      × (res.status < 300)
      × ((v ≡ obj end) ⊎ ((raw : Text) × (res.text ≡ some raw) × (parse raw ≡ some v)))
  IsUploaded res (failed message) = HasStatus res.status message

  -- An upload that was answered returns a value only for a status from 200 to 299, and then the
  -- value of the answer's JSON or an empty object, and otherwise fails with a message that begins
  -- with the status.
  pub upload_outcome-IsUploaded :
      (res : Response) → IsUploaded res (upload_outcome parse stringify (some res))
  unfolding upload_outcome
  upload_outcome-IsUploaded res = elim (Bool-cases (ltb res.status 200 || leb 300 res.status)) [
    | inl refused ↦
        rw (refused, upload_outcome) (parse_error-HasStatus res.status (text_of res.text))
    | inr accepted ↦
        let low : 200 ≤ res.status = ground arith in
        let high : res.status < 300 = ground arith in
        elim (Bool-cases (is_empty (text_of res.text))) [
          | inl blank ↦ rw (accepted, blank, upload_outcome) (low, high, inl refl)
          | inr filled ↦ elim (Option-cases (parse (text_of res.text))) [
            | inl broken ↦
                rw (accepted, filled, broken, upload_outcome) (codes " invalid JSON response", refl)
            | inr (v, good) ↦
                rw (accepted, filled, good, upload_outcome)
                  (low, high, inr (text_of res.text, text_there res.text filled, good))
          ]
        ]
  ]

-- The percentage that an upload reports is at most 100, also where more was loaded than the total
-- says.
pub percent-bounds :
    (length_computable : Bool) (loaded event_total : ℕ)
    → (upload_progress length_computable loaded event_total).percent ≤ 100
unfolding upload_progress
percent-bounds c l t = ground arith
