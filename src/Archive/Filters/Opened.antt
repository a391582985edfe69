-- ===== src/Archive/Filters/Opened.antt =====
-- What holds of the archive's filters at all times (components/archive/ArchiveWorkspace.tsx).
use clip_to_doc_archive.Prelude.Int.{ℤ}
use clip_to_doc_archive.Json.{Number}
use clip_to_doc_archive.Archive.Presets.{PresetPayload}
use clip_to_doc_archive.Archive.Filters.{
  sort_fields, SearchParams, parse_review_status, parse_sort_by, parse_sort_order, filled, Filters,
  put_year, only_year, from_search_params, cleared, apply_payload, toggle_column_sort,
  select_category, select_year, select_month, total_pages, next_page, positive, option_or_1,
  parse_optional_positive_int, text_or_empty,
}
use clip_to_doc_archive.Archive.Filters.Actions.{
  Action, address_changed, filters_cleared, preset_applied, column_sorted, search_typed,
  search_pressed, category_chosen, year_chosen, month_chosen, status_chosen, field_chosen,
  order_chosen, size_chosen, previous_pressed, next_pressed, act, run,
}
use clip_to_doc_archive.Prelude.{
  ℕ, ◌≤◌, ◌≡◌, refl, ◌⊎◌, inl, inr, true, false, ◌||◌, Option, none, some, List, [], ◌∷◌, arith,
  if◌then◌else◌, Bool-cases, ◌==◌, nat_eq, list_beq_iff, list_eq, is_empty, All, contains,
}
use clip_to_doc_archive.Text.{Text, codes}

-- The year that the tree opens: that of the open category.
abbrev pub open_year : Filters → Option ℤ
open_year f = elim f.expanded_category [ none ↦ none | some c ↦ f.expanded_years c ]

-- The tree is open at the category and the year that the list is filtered by, the request can be
-- answered (a page from 1, a size above 0), and the select boxes show values that they offer.
pub record IsSettled (f : Filters) : Type 0 where
  pub branch : f.expanded_category ≡ filled f.category_filter
  pub leaf : open_year f ≡ (if is_empty f.category_filter then none else f.year_filter)
  pub paged : 1 ≤ f.page
  pub sized : 1 ≤ f.page_size
  pub sorted : contains sort_fields f.sort_by ≡ true
  pub ordered : (f.sort_order ≡ codes "asc") ⊎ (f.sort_order ≡ codes "desc")
  pub status : parse_review_status f.review_status ≡ f.review_status

-- What the page offers: the tree's categories have names, the columns and the select boxes offer
-- the fields, the statuses and the sizes that they list.
abbrev pub IsOffered : Action → Type 0
IsOffered (column_sorted target) = contains sort_fields target ≡ true
IsOffered (category_chosen c) = is_empty c ≡ false
IsOffered (year_chosen c y) = is_empty c ≡ false
IsOffered (month_chosen c y m) = is_empty c ≡ false
IsOffered (status_chosen s) = parse_review_status s ≡ s
IsOffered (size_chosen n) = 1 ≤ n
IsOffered _ = Unit

parse_sort_by-known : (s : Text) → contains sort_fields (parse_sort_by s) ≡ true
unfolding parse_sort_by
parse_sort_by-known s = elim (Bool-cases (contains sort_fields s)) [
  | inl known ↦ rw known known
  | inr strange ↦ rw strange refl
]

parse_sort_order-known :
    (s : Text) → (parse_sort_order s ≡ codes "asc") ⊎ (parse_sort_order s ≡ codes "desc")
unfolding parse_sort_order
parse_sort_order-known s = elim (Bool-cases (s == codes "asc")) [
  | inl up ↦ rw up (inl ((list_beq_iff s (codes "asc")).0 up))
  | inr other ↦ elim (Bool-cases (s == codes "desc")) [
    | inl down ↦ rw (other, down) (inr ((list_beq_iff s (codes "desc")).0 down))
    | inr strange ↦ rw (other, strange) (inr refl)
  ]
]

parse_review_status-known :
    (s : Text) → parse_review_status (parse_review_status s) ≡ parse_review_status s
unfolding parse_review_status
parse_review_status-known s =
    elim (Bool-cases (s == codes "NONE" || s == codes "NEEDS_REVIEW" || s == codes "RESOLVED")) [
      | inl known ↦ rw known (rw known)
      | inr strange ↦ rw strange refl
    ]

positive-or_1 : (n : Option Number) → 1 ≤ option_or_1 (positive n)
positive-or_1 n = ground arith

parsed-or_1 :
    (number : Text → Option Number) (s : Option Text)
    → 1 ≤ option_or_1 (parse_optional_positive_int number s)
unfolding parse_optional_positive_int
parsed-or_1 number none = omega arith
parsed-or_1 number (some s) = elim (Bool-cases (is_empty s)) [
  | inl blank ↦ rw blank (omega arith)
  | inr more ↦ rw more (positive-or_1 (number s))
]

-- The tree is opened at a category by name, or not at all.
opened_at : Text → Option ℤ → Option ℤ
opened_at c year = elim (filled c) [ none ↦ none | some d ↦ only_year c year d ]

opened_at_lem :
    (c : Text) (year : Option ℤ) → opened_at c year ≡ (if is_empty c then none else year)
unfolding opened_at
opened_at_lem [] year = refl
opened_at_lem (d ∷ c) year = rw ((list_beq_iff (d ∷ c) (d ∷ c)).1 refl) refl

module _ (number : Text → Option Number) (f : Filters) where
  address-IsSettled :
      (get : SearchParams) → IsSettled f → IsSettled (act number f (address_changed get))
  unfolding act from_search_params opened_at
  address-IsSettled get h = record {
    branch = refl;
    leaf = opened_at_lem (text_or_empty (get (codes "category"))) _;
    paged = parsed-or_1 number (get (codes "page"));
    sized = h.sized;
    sorted = parse_sort_by-known (text_or_empty (get (codes "sort_by")));
    ordered = parse_sort_order-known (text_or_empty (get (codes "sort_order")));
    status = parse_review_status-known (text_or_empty (get (codes "review_status")));
  }

  preset-IsSettled : (p : PresetPayload) → IsSettled (apply_payload p)
  unfolding apply_payload opened_at
  preset-IsSettled p = record {
    branch = refl;
    leaf = opened_at_lem p.category_filter p.year_filter;
    paged = omega arith;
    sized = ground arith;
    sorted = parse_sort_by-known p.sort_by;
    ordered = parse_sort_order-known p.sort_order;
    status = parse_review_status-known p.review_status;
  }

  -- A choice in the tree opens it there.
  chosen-IsSettled :
      (c : Text) (year month : Option ℤ)
      → is_empty c ≡ false
      → IsSettled f
      → IsSettled (record f {
        expanded_category = some c;
        expanded_years = put_year c year f.expanded_years;
        category_filter = c;
        year_filter = year;
        month_filter = month;
        page = 1;
      })
  chosen-IsSettled c year month named h = record {
    branch = rw named refl;
    leaf = rw (named, (list_beq_iff c c).1 refl) refl;
    paged = omega arith;
    sized = h.sized;
    sorted = h.sorted;
    ordered = h.ordered;
    status = h.status;
  }

  -- What the tree shows does not depend on the rest.
  listed-IsSettled :
      (status input query field order : Text) (page size : ℕ)
      → parse_review_status status ≡ status
      → contains sort_fields field ≡ true
      → (order ≡ codes "asc") ⊎ (order ≡ codes "desc")
      → 1 ≤ page
      → 1 ≤ size
      → IsSettled f
      → IsSettled (record f {
        review_status = status;
        search_input = input;
        search_query = query;
        sort_by = field;
        sort_order = order;
        page = page;
        page_size = size;
      })
  listed-IsSettled status input query field order page size s k o p z h = record {
    branch = h.branch;
    leaf = h.leaf;
    paged = p;
    sized = z;
    sorted = k;
    ordered = o;
    status = s;
  }

  column-IsSettled :
      (target : Text)
      → contains sort_fields target ≡ true
      → IsSettled f
      → IsSettled (toggle_column_sort target f)
  unfolding toggle_column_sort
  column-IsSettled target known h = elim (Bool-cases (f.sort_by == target)) [
    | inl same ↦ rw same (elim (Bool-cases (f.sort_order == codes "desc")) [
      | inl down ↦
          rw down
            (listed-IsSettled _ _ _ _ _ _ _ h.status h.sorted (inl refl) (omega arith) h.sized h)
      | inr up ↦
          rw up
            (listed-IsSettled _ _ _ _ _ _ _ h.status h.sorted (inr refl) (omega arith) h.sized h)
    ])
    | inr other ↦
        rw other (listed-IsSettled _ _ _ _ _ _ _ h.status known (inr refl) (omega arith) h.sized h)
  ]

  act-IsSettled : (a : Action) → IsOffered a → IsSettled f → IsSettled (act number f a)
  unfolding act
  act-IsSettled (address_changed get) o h = address-IsSettled get h
  act-IsSettled filters_cleared o h = record {
    branch = refl;
    leaf = refl;
    paged = omega arith;
    sized = omega arith;
    sorted = refl;
    ordered = inr refl;
    status = unfold parse_review_status in refl;
  }
  act-IsSettled (preset_applied p) o h = preset-IsSettled p
  act-IsSettled (column_sorted target) o h = column-IsSettled target o h
  act-IsSettled (search_typed s) o h =
      listed-IsSettled _ _ _ _ _ _ _ h.status h.sorted h.ordered h.paged h.sized h
  act-IsSettled search_pressed o h =
      listed-IsSettled _ _ _ _ _ _ _ h.status h.sorted h.ordered (omega arith) h.sized h
  act-IsSettled (category_chosen c) o h = unfold select_category in chosen-IsSettled c none none o h
  act-IsSettled (year_chosen c y) o h = unfold select_year in chosen-IsSettled c (some y) none o h
  act-IsSettled (month_chosen c y m) o h =
      unfold select_month in chosen-IsSettled c (some y) (some m) o h
  act-IsSettled (status_chosen s) o h =
      listed-IsSettled _ _ _ _ _ _ _ o h.sorted h.ordered (omega arith) h.sized h
  act-IsSettled (field_chosen s) o h =
      listed-IsSettled _ _ _ _ _ _ _ h.status (parse_sort_by-known s) h.ordered (omega arith)
        h.sized h
  act-IsSettled (order_chosen s) o h =
      listed-IsSettled _ _ _ _ _ _ _ h.status h.sorted (parse_sort_order-known s) (omega arith)
        h.sized h
  act-IsSettled (size_chosen n) o h =
      listed-IsSettled _ _ _ _ _ _ _ h.status h.sorted h.ordered (omega arith) o h
  act-IsSettled previous_pressed o h =
      listed-IsSettled _ _ _ _ _ _ _ h.status h.sorted h.ordered (omega arith) h.sized h
  act-IsSettled (next_pressed total) o h =
      unfold next_page total_pages in
      listed-IsSettled _ _ _ _ _ _ _ h.status h.sorted h.ordered (omega arith) h.sized h

-- After any actions that the page offers, from settled filters: the tree is open at the category
-- and the year that the list is filtered by, the page and the page size are at least 1, and the
-- sort, its order and the status are values of their select boxes.
pub run-IsSettled :
    (number : Text → Option Number) (actions : List Action) (f : Filters)
    → All IsOffered actions
    → IsSettled f
    → IsSettled (run number f actions)
unfolding run
run-IsSettled number [] f o h = h
run-IsSettled number (a ∷ actions) f o h =
    run-IsSettled number actions (act number f a) o.1 (act-IsSettled number f a o.0 h)

pub cleared-IsSettled : IsSettled cleared
cleared-IsSettled = record {
  branch = refl;
  leaf = refl;
  paged = omega arith;
  sized = omega arith;
  sorted = refl;
  ordered = inr refl;
  status = unfold parse_review_status in refl;
}
