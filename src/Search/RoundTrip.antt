-- ===== src/Search/RoundTrip.antt =====
-- Writing and reading a saved filter (components/search/SearchWorkspace.tsx).
use clip_to_doc_archive.Json.{Value, Fields, str, get, text_or}
use clip_to_doc_archive.Search.{
  ReviewStatus, SortBy, SortOrder, review_status_text, sort_by_text, sort_order_text, SearchFilters,
  text_field, build_filter_payload, parse_review_status, parse_sort_by, parse_sort_order,
  from_filter_json,
}
use clip_to_doc_archive.Prelude.{
  ◌≡◌, refl, ap, ◌∙◌, not, ◌&&◌, Option, none, some, [], ◌∷◌, arith, if◌then◌else◌, ◌==◌, nat_eq,
  list_eq, is_empty,
}
use clip_to_doc_archive.Text.{Text, codes, trim}

get-text_field :
    (key name value : Text) (rest : Fields)
    → get (text_field key value rest) name
      ≡ (if key == name && not (is_empty value) then some (str value) else get rest name)
get-text_field key name [] rest = ground arith
get-text_field key name (c ∷ s) rest = ground arith

text_or-filled :
    (value : Text) → text_or [] (if not (is_empty value) then some (str value) else none) ≡ value
text_or-filled [] = refl
text_or-filled (c ∷ s) = refl

parse-review_status_text :
    (r : ReviewStatus)
    → parse_review_status
        (if not (is_empty (review_status_text r)) then some (str (review_status_text r)) else none)
      ≡ r
unfolding parse_review_status
parse-review_status_text r = ground arith

parse-sort_by_text : (s : SortBy) → parse_sort_by (some (str (sort_by_text s))) ≡ s
unfolding parse_sort_by
parse-sort_by_text s = ground arith

parse-sort_order_text : (s : SortOrder) → parse_sort_order (some (str (sort_order_text s))) ≡ s
unfolding parse_sort_order
parse-sort_order_text s = ground arith

abbrev found : Text → Option Value
found value = if not (is_empty value) then some (str value) else none

get-payload :
    (f : SearchFilters)
    → (get (build_filter_payload f) (codes "q") ≡ found (trim f.q))
      × (get (build_filter_payload f) (codes "category_name") ≡ found f.category_name)
      × (get (build_filter_payload f) (codes "tag") ≡ found (trim f.tag))
      × (get (build_filter_payload f) (codes "review_status")
          ≡ found (review_status_text f.review_status))
      × (get (build_filter_payload f) (codes "event_date_from") ≡ found f.event_date_from)
      × (get (build_filter_payload f) (codes "event_date_to") ≡ found f.event_date_to)
      × (get (build_filter_payload f) (codes "sort_by") ≡ some (str (sort_by_text f.sort_by)))
      × (get (build_filter_payload f) (codes "sort_order")
          ≡ some (str (sort_order_text f.sort_order)))
unfolding build_filter_payload
get-payload f = (
  simp get-text_field,
  simp get-text_field,
  simp get-text_field,
  simp get-text_field,
  simp get-text_field,
  simp get-text_field,
  simp get-text_field,
  simp get-text_field,
)

-- Reading the saved payload of any search filters gives the filters back, with the query and the
-- tag trimmed.
from_filter_json-build_filter_payload :
    (f : SearchFilters)
    → from_filter_json (build_filter_payload f) ≡ record f { q = trim f.q; tag = trim f.tag }
unfolding from_filter_json
from_filter_json-build_filter_payload f =
    let (q, c, t, r, df, dt, sb, so) = get-payload f in
    λ i. record {
      q = (ap (text_or []) q ∙ text_or-filled (trim f.q)) i;
      category_name = (ap (text_or []) c ∙ text_or-filled f.category_name) i;
      tag = (ap (text_or []) t ∙ text_or-filled (trim f.tag)) i;
      review_status = (ap parse_review_status r ∙ parse-review_status_text f.review_status) i;
      event_date_from = (ap (text_or []) df ∙ text_or-filled f.event_date_from) i;
      event_date_to = (ap (text_or []) dt ∙ text_or-filled f.event_date_to) i;
      sort_by = (ap parse_sort_by sb ∙ parse-sort_by_text f.sort_by) i;
      sort_order = (ap parse_sort_order so ∙ parse-sort_order_text f.sort_order) i;
    }
