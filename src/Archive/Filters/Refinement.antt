-- ===== src/Archive/Filters/Refinement.antt =====
-- The archive's filters as one question to the document list, and the page that refines it
-- (components/archive/ArchiveWorkspace.tsx).
use clip_to_doc_archive.Prelude.Int.{ℤ, pos}
use clip_to_doc_archive.Json.{Number, decimal}
use clip_to_doc_archive.Archive.Filters.{
  SearchParams, parse_review_status, parse_sort_by, parse_sort_order, Filters, positive_or_default,
  default_page_size, parse_optional_positive_int, total_pages, from_search_params, apply_payload,
  toggle_column_sort, select_category, select_year, select_month, next_page, option_or_1,
  text_or_empty,
}
use clip_to_doc_archive.Archive.Filters.Actions.{
  Action, address_changed, filters_cleared, preset_applied, column_sorted, search_typed,
  search_pressed, category_chosen, year_chosen, month_chosen, status_chosen, field_chosen,
  order_chosen, size_chosen, previous_pressed, next_pressed, act, run,
}
use clip_to_doc_archive.Archive.Filters.Query.{param_if_filled, date_params, document_query}
use mathlib.Core.Option
use clip_to_doc_archive.Prelude.{
  ℕ, ◌+◌, ◌-◌, min, max, ◌≡◌, refl, ap, ◌∙◌, inl, inr, Option, none, some, List, [], ◌∷◌, ◌++◌,
  if◌then◌else◌, Bool-cases, ◌==◌, nat_eq, list_beq_iff, list_eq,
}
use clip_to_doc_archive.Text.{Text, codes, trim}

-- The time that the list is about; a month is one of a year.
pub data Period : Type 0 where
  always : Period
  in_year : ℤ → Period
  in_month : ℤ → ℤ → Period

-- What is asked, and what stands in the search box.
pub record Question : Type 0 where
  pub category : Text
  pub period : Period
  pub status : Text
  pub words : Text
  pub field : Text
  pub order : Text
  pub page : ℕ
  pub size : ℕ
  pub box : Text

abbrev pub period_of : Option ℤ → Option ℤ → Period
period_of none month = always
period_of (some y) none = in_year y
period_of (some y) (some m) = in_month y m

-- Two states of the page with the same question ask the same, whatever the tree shows.
abbrev pub question : Filters → Question
question f = record {
  category = f.category_filter;
  period = period_of f.year_filter f.month_filter;
  status = f.review_status;
  words = f.search_query;
  field = f.sort_by;
  order = f.sort_order;
  page = f.page;
  size = f.page_size;
  box = f.search_input;
}

abbrev pub opposite : Text → Text
opposite order = if order == codes "desc" then codes "asc" else codes "desc"

-- What the last action that says something about a matter said; else how it was before.
pub last_said : {X : Type 0} → (Action → Option X) → X → List Action → X
last_said said before [] = before
last_said said before (a ∷ actions) = last_said said (Option.get_or (said a) before) actions

-- A value that each action moves on from what it was.
pub moved : {X : Type 0} → (X → Action → X) → X → List Action → X
moved move before [] = before
moved move before (a ∷ actions) = moved move (move before a) actions

-- A number above 0 in the address.
abbrev int_of : (Text → Option Number) → SearchParams → Text → Option ℕ
int_of number get name = parse_optional_positive_int number (get name)

-- The place in the tree: a category and a period, always said together.
abbrev pub place_said : (Text → Option Number) → Action → Option (Text × Period)
place_said number (category_chosen c) = some (c, always)
place_said number (year_chosen c y) = some (c, in_year y)
place_said number (month_chosen c y m) = some (c, in_month y m)
place_said number filters_cleared = some ([], always)
place_said number (preset_applied p) =
    some (p.category_filter, period_of p.year_filter p.month_filter)
place_said number (address_changed get) = some (
  text_or_empty (get (codes "category")),
  period_of (Option.map pos (int_of number get (codes "year")))
      (Option.map pos (int_of number get (codes "month"))),
)
place_said number _ = none

abbrev pub status_said : Action → Option Text
status_said (status_chosen s) = some s
status_said filters_cleared = some []
status_said (preset_applied p) = some (parse_review_status p.review_status)
status_said (address_changed get) =
    some (parse_review_status (text_or_empty (get (codes "review_status"))))
status_said _ = none

-- The words in the box, and those that are searched for: typing changes the first, the button
-- makes the second the first.
abbrev pub words_moved : Text × Text → Action → Text × Text
words_moved (box, words) (search_typed s) = (s, words)
words_moved (box, words) search_pressed = (box, box)
words_moved w filters_cleared = ([], [])
words_moved w (preset_applied p) = (p.search_query, p.search_query)
words_moved w (address_changed get) =
    (text_or_empty (get (codes "q")), text_or_empty (get (codes "q")))
words_moved w _ = w

-- The column and its order: a column that is pressed again turns around.
abbrev pub sort_moved : Text × Text → Action → Text × Text
sort_moved (field, order) (column_sorted target) =
    (target, if field == target then opposite order else codes "desc")
sort_moved (field, order) (field_chosen s) = (parse_sort_by s, order)
sort_moved (field, order) (order_chosen s) = (field, parse_sort_order s)
sort_moved o filters_cleared = (codes "event_date", codes "desc")
sort_moved o (preset_applied p) = (parse_sort_by p.sort_by, parse_sort_order p.sort_order)
sort_moved o (address_changed get) = (
  parse_sort_by (text_or_empty (get (codes "sort_by"))),
  parse_sort_order (text_or_empty (get (codes "sort_order"))),
)
sort_moved o _ = o

abbrev pub size_said : Action → Option ℕ
size_said (size_chosen n) = some n
size_said filters_cleared = some default_page_size
size_said (preset_applied p) = some (positive_or_default p.page_size)
size_said _ = none

-- The size of a page and the page: typing leaves the page, the two buttons turn it, an address
-- names it, and every other action goes to the first.
abbrev pub page_moved : (Text → Option Number) → ℕ × ℕ → Action → ℕ × ℕ
page_moved number (size, page) (search_typed s) = (size, page)
page_moved number (size, page) previous_pressed = (size, max 1 (page - 1))
page_moved number (size, page) (next_pressed total) =
    (size, min (total_pages total size) (page + 1))
page_moved number (size, page) (address_changed get) =
    (size, option_or_1 (int_of number get (codes "page")))
page_moved number (size, page) a = (Option.get_or (size_said a) size, 1)

-- The question after a history of actions, each matter by itself.
pub asked : (Text → Option Number) → Question → List Action → Question
unfolding last_said moved
asked number q actions =
    let place = last_said (place_said number) (q.category, q.period) actions in
    let words = moved words_moved (q.box, q.words) actions in
    let sort = moved sort_moved (q.field, q.order) actions in
    let paging = moved (page_moved number) (q.size, q.page) actions in
    record {
      category = place.0;
      period = place.1;
      status = last_said status_said q.status actions;
      words = words.1;
      field = sort.0;
      order = sort.1;
      page = paging.1;
      size = paging.0;
      box = words.0;
    }

abbrev pub period_params : (ℤ → Option ℤ → Text × Text) → Period → List (Text × Text)
period_params range always = []
period_params range (in_year y) = date_params range (some y) none
period_params range (in_month y m) = date_params range (some y) (some m)

-- The request that answers a question.
pub request : (ℤ → Option ℤ → Text × Text) → Question → List (Text × Text)
unfolding trim
request range q =
    (codes "page", decimal q.page)
    ∷ (codes "size", decimal q.size)
    ∷ (param_if_filled (codes "q") (trim q.words)
        ++ (param_if_filled (codes "category_name") q.category
            ++ (param_if_filled (codes "review_status") q.status
                ++ ((codes "sort_by", q.field)
                    ∷ (codes "sort_order", q.order)
                    ∷ period_params range q.period))))

-- A column that is pressed, whether it was the sorted one or not.
column-question :
    (number : Text → Option Number) (target : Text) (f : Filters)
    → question (toggle_column_sort target f) ≡ asked number (question f) (column_sorted target ∷ [])
unfolding toggle_column_sort asked
column-question number target f = elim (Bool-cases (f.sort_by == target)) [
  | inl same ↦
      let e = (list_beq_iff f.sort_by target).0 same in
      rw same (
        ap (λ field. record (question f) { field = field; order = opposite f.sort_order; page = 1 })
          e)
  | inr other ↦ rw other refl
]

question-act :
    (number : Text → Option Number) (f : Filters) (a : Action)
    → question (act number f a) ≡ asked number (question f) (a ∷ [])
unfolding act asked from_search_params apply_payload select_category select_year select_month
    next_page
question-act number f (column_sorted target) = column-question number target f
question-act number f (address_changed get) = refl
question-act number f filters_cleared = refl
question-act number f (preset_applied p) = refl
question-act number f (search_typed s) = refl
question-act number f search_pressed = refl
question-act number f (category_chosen c) = refl
question-act number f (year_chosen c y) = refl
question-act number f (month_chosen c y m) = refl
question-act number f (status_chosen s) = refl
question-act number f (field_chosen s) = refl
question-act number f (order_chosen s) = refl
question-act number f (size_chosen n) = refl
question-act number f previous_pressed = refl
question-act number f (next_pressed total) = refl

-- A history can be told in two parts.
asked-cons :
    (number : Text → Option Number) (q : Question) (a : Action) (actions : List Action)
    → asked number (asked number q (a ∷ [])) actions ≡ asked number q (a ∷ actions)
unfolding asked
asked-cons number q a actions = refl

question-run :
    (number : Text → Option Number) (actions : List Action) (f : Filters)
    → question (run number f actions) ≡ asked number (question f) actions
unfolding run asked
question-run number [] f = refl
question-run number (a ∷ actions) f =
    question-run number actions (act number f a)
    ∙ ap (λ q. asked number q actions) (question-act number f a)
    ∙ asked-cons number (question f) a actions

query-question :
    (range : ℤ → Option ℤ → Text × Text) (f : Filters)
    → document_query range f ≡ request range (question f)
unfolding document_query request
query-question range f =
    ap
      (λ dates.
        (codes "page", decimal f.page)
        ∷ (codes "size", decimal f.page_size)
        ∷ (param_if_filled (codes "q") (trim f.search_query)
            ++ (param_if_filled (codes "category_name") f.category_filter
                ++ (param_if_filled (codes "review_status") f.review_status
                    ++ ((codes "sort_by", f.sort_by)
                        ∷ (codes "sort_order", f.sort_order)
                        ∷ dates)))))
      (dates f.year_filter f.month_filter)
  where
    dates :
        (year month : Option ℤ)
        → date_params range year month ≡ period_params range (period_of year month)
    dates none month = refl
    dates (some y) none = refl
    dates (some y) (some m) = refl

-- Whatever actions the user and the address take, the list sends the query of a question whose
-- matters are each told from the history alone: place, status and page size are what the last
-- action that names them says, a place being a category with a period, which is never a month
-- without its year; the words are those of the box when they were last searched for, unless named
-- later; the column and its order move with the column's presses; the page is kept by typing,
-- turned by its buttons, named by an address, and first after every other action.
pub query-run :
    (number : Text → Option Number) (range : ℤ → Option ℤ → Text × Text) (f : Filters)
    (actions : List Action)
    → document_query range (run number f actions)
      ≡ request range (asked number (question f) actions)
query-run number range f actions =
    query-question range (run number f actions) ∙ ap (request range) (question-run number actions f)
