-- ===== src/Search.antt =====
-- The filters of the search page (components/search/SearchWorkspace.tsx): the payload that is
-- saved as a filter and sent as a query, and reading a saved filter back.
pub mod RoundTrip
use clip_to_doc_archive.Json.{
  Value, Fields, str, obj, end, field, property, get, text_or, decimal, entries,
}
use clip_to_doc_archive.Prelude.{
  ℕ, Option, some, List, [], ◌∷◌, if◌then◌else◌, ◌==◌, nat_eq, list_eq, is_empty,
}
use clip_to_doc_archive.Text.{Text, codes, trim}

pub data ReviewStatus : Type 0 where
  any_status none' needs_review resolved : ReviewStatus

pub data SortBy : Type 0 where
  event_date ingested_at created_at title : SortBy

pub data SortOrder : Type 0 where
  asc desc : SortOrder

abbrev pub review_status_text : ReviewStatus → Text
review_status_text any_status = []
review_status_text none' = codes "NONE"
review_status_text needs_review = codes "NEEDS_REVIEW"
review_status_text resolved = codes "RESOLVED"

abbrev pub sort_by_text : SortBy → Text
sort_by_text event_date = codes "event_date"
sort_by_text ingested_at = codes "ingested_at"
sort_by_text created_at = codes "created_at"
sort_by_text title = codes "title"

abbrev pub sort_order_text : SortOrder → Text
sort_order_text asc = codes "asc"
sort_order_text desc = codes "desc"

pub record SearchFilters : Type 0 where
  pub q : Text
  pub category_name : Text
  pub tag : Text
  pub review_status : ReviewStatus
  pub event_date_from : Text
  pub event_date_to : Text
  pub sort_by : SortBy
  pub sort_order : SortOrder

abbrev pub empty_filters : SearchFilters
empty_filters = record {
  q = [];
  category_name = [];
  tag = [];
  review_status = any_status;
  event_date_from = [];
  event_date_to = [];
  sort_by = event_date;
  sort_order = desc;
}

-- `if (value) payload[name] = value`, in front of the properties that are set later.
abbrev pub text_field : Text → Text → Fields → Fields
text_field name value rest = if is_empty value then rest else field name (str value) rest

unfoldable pub build_filter_payload : SearchFilters → Fields
build_filter_payload filters = text_field (codes "q") (trim filters.q) (
    text_field (codes "category_name") filters.category_name (
      text_field (codes "tag") (trim filters.tag) (
        text_field (codes "review_status") (review_status_text filters.review_status) (
          text_field (codes "event_date_from") filters.event_date_from (
            text_field (codes "event_date_to") filters.event_date_to (
              field (codes "sort_by") (str (sort_by_text filters.sort_by))
                (field (codes "sort_order") (str (sort_order_text filters.sort_order)) end)))))))

-- The parameters of `buildDocumentQuery`, in the order in which they are set.
unfoldable pub build_document_query : SearchFilters → (page page_size : ℕ) → List (Text × Value)
unfolding build_filter_payload
build_document_query filters page page_size =
    (codes "page", str (decimal page))
    ∷ (codes "size", str (decimal page_size))
    ∷ entries (build_filter_payload filters)

unfoldable pub parse_review_status : Option Value → ReviewStatus
parse_review_status (some (str s)) =
    if s == codes "NONE"
    then none'
    else if s == codes "NEEDS_REVIEW"
    then needs_review
    else if s == codes "RESOLVED"
    then resolved
    else any_status
parse_review_status _ = any_status

unfoldable pub parse_sort_by : Option Value → SortBy
parse_sort_by (some (str s)) =
    if s == codes "event_date"
    then event_date
    else if s == codes "ingested_at"
    then ingested_at
    else if s == codes "created_at"
    then created_at
    else if s == codes "title"
    then title
    else event_date
parse_sort_by _ = event_date

unfoldable pub parse_sort_order : Option Value → SortOrder
parse_sort_order (some (str s)) =
    if s == codes "asc" then asc else if s == codes "desc" then desc else desc
parse_sort_order _ = desc

unfoldable pub from_filter_json : Fields → SearchFilters
unfolding parse_review_status parse_sort_by parse_sort_order
from_filter_json filter_json = record {
  q = text_or [] (get filter_json (codes "q"));
  category_name = text_or [] (get filter_json (codes "category_name"));
  tag = text_or [] (get filter_json (codes "tag"));
  review_status = parse_review_status (get filter_json (codes "review_status"));
  event_date_from = text_or [] (get filter_json (codes "event_date_from"));
  event_date_to = text_or [] (get filter_json (codes "event_date_to"));
  sort_by = parse_sort_by (get filter_json (codes "sort_by"));
  sort_order = parse_sort_order (get filter_json (codes "sort_order"));
}
