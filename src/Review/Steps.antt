-- ===== src/Review/Steps.antt =====
-- The review queue (components/review/ReviewQueueManager.tsx) over all sequences of events.
use clip_to_doc_archive.Review.{
  ReviewItem, ReviewState, Update, approve, set_category, set_event_date, Request, ReviewPage,
  document_ids, load_end, run_bulk, launch, is_enabled, finish_load, start_bulk, Step, refresh,
  loaded, checked, all_selected, none_selected, typed_category, typed_date, bulk_started,
  bulk_finished, Reachable, at_mount, after_step,
}
use clip_to_doc_archive.Review.Selection.{
  IsSelection, load_end-IsSelection, toggle-IsSelection, select_all-IsSelection,
}
use clip_to_doc_archive.Prelude.{
  subst, ℕ, suc, ◌+◌, ◌≤◌, ◌≡◌, refl, sym, ap, ◌∙◌, ◌⊎◌, inl, inr, Bool, true, false, Option, none,
  some, List, [], ◌∷◌, ◌++◌, arith, Bool-cases, nat_eq, list_eq, is_empty, All, contains, Distinct,
}
use clip_to_doc_archive.Text.{Text, codes}

abbrev pub awaited_loads : List Bool → ℕ
awaited_loads [] = 0
awaited_loads (true ∷ loads) = suc (awaited_loads loads)
awaited_loads (false ∷ loads) = awaited_loads loads

abbrev pub sent_count : Option Request → ℕ
sent_count none = 0
sent_count (some r) = 1

-- The bulk decisions under way: those that were sent and those that wait for the list.
abbrev pub decisions : ReviewPage → ℕ
decisions p = sent_count p.sent + awaited_loads p.loads

abbrev pub busy_count : Bool → ℕ
busy_count true = 1
busy_count false = 0

pub record IsSound (p : ReviewPage) : Type 0 where
  pub selection : IsSelection p.state
  pub one : decisions p ≡ busy_count p.state.busy

awaited_loads-append :
    (xs ys : List Bool) → awaited_loads (xs ++ ys) ≡ awaited_loads xs + awaited_loads ys
awaited_loads-append [] ys = omega arith
awaited_loads-append (true ∷ xs) ys = omega (arith, awaited_loads-append xs ys)
awaited_loads-append (false ∷ xs) ys = awaited_loads-append xs ys

pub is_enabled-busy :
    (update : Update) (s : ReviewState) → is_enabled update s ≡ true → s.busy ≡ false
is_enabled-busy approve s h = ground arith
is_enabled-busy (set_category name) s h = ground arith
is_enabled-busy (set_event_date date) s h = ground arith

-- Changes that leave the list and the selection alone.
IsSelection-same :
    (s t : ReviewState)
    → t.items ≡ s.items
    → t.selected ≡ s.selected
    → IsSelection s
    → IsSelection t
IsSelection-same s t i e h = record {
  distinct = subst Distinct (sym e) h.distinct;
  listed =
      subst (λ l. All (λ k. contains (document_ids t.items) k ≡ true) l) (sym e)
        (subst (λ l. All (λ k. contains (document_ids l) k ≡ true) s.selected) (sym i) h.listed);
}

busy_count_le : (b : Bool) → busy_count b ≤ 1
busy_count_le true = omega arith
busy_count_le false = omega arith

load_end-busy :
    (s : ReviewState) (answer : Text ⊎ List ReviewItem) → (load_end s answer).busy ≡ s.busy
load_end-busy s (inl failure) = refl
load_end-busy s (inr items) = refl

sent_is_one :
    (p : ReviewPage) (request : Request)
    → p.sent ≡ some request
    → decisions p ≡ busy_count p.state.busy
    → awaited_loads p.loads ≡ 0
sent_is_one p request e h =
    let n : sent_count p.sent ≡ 1 = ap sent_count e in
    omega (arith, n, h, busy_count_le p.state.busy)

pub run_bulk_empty :
    (update : Update) (s : ReviewState)
    → is_empty s.selected ≡ true
    → run_bulk update s ≡ (record s { error = codes "선택된 문서가 없습니다." }, none)
run_bulk_empty update s h = rw (h, run_bulk) refl

pub run_bulk-some :
    (update : Update) (s : ReviewState)
    → is_empty s.selected ≡ false
    → run_bulk update s ≡ (
      record s { busy = true; error = []; message = [] },
      some (record { document_ids = s.selected; update = update }),
    )
run_bulk-some update s h = rw (h, run_bulk) refl

start_bulk-IsSound :
    (p : ReviewPage) (update : Update)
    → is_enabled update p.state ≡ true
    → IsSound p
    → IsSound (start_bulk update p)
start_bulk-IsSound p update on s = elim (Bool-cases (is_empty p.state.selected)) [
  | inl none_chosen ↦
      subst (λ x. IsSound (launch p x)) (sym (run_bulk_empty update p.state none_chosen))
        (record { selection = IsSelection-same p.state _ refl refl s.selection; one = s.one })
  | inr chosen ↦
      let idle : busy_count p.state.busy ≡ 0 = ap busy_count (is_enabled-busy update p.state on) in
      let n : awaited_loads p.loads ≡ 0 = omega (arith, idle, s.one) in
      subst (λ x. IsSound (launch p x)) (sym (run_bulk-some update p.state chosen))
        (record {
          selection = IsSelection-same p.state _ refl refl s.selection;
          one = omega (arith, n);
        })
]

finish_load-one :
    (p : ReviewPage) (before after : List Bool) (awaited : Bool) (answer : Text ⊎ List ReviewItem)
    → p.loads ≡ before ++ awaited ∷ after
    → decisions p ≡ busy_count p.state.busy
    → decisions (finish_load before awaited after answer p)
      ≡ busy_count (finish_load before awaited after answer p).state.busy
finish_load-one p before after true answer e h =
    let n : sent_count p.sent + (awaited_loads before + suc (awaited_loads after))
        ≡ busy_count p.state.busy =
      sym (
        ap (λ l. sent_count p.sent + awaited_loads l) e
        ∙ ap (λ k. sent_count p.sent + k) (awaited_loads-append before (true ∷ after)))
      ∙ h in
    let total : sent_count p.sent + awaited_loads (before ++ after) ≡ 0 =
      omega (arith, n, awaited_loads-append before after, busy_count_le p.state.busy) in
    total
finish_load-one p before after false answer e h =
    let n : sent_count p.sent + (awaited_loads before + awaited_loads after)
        ≡ busy_count p.state.busy =
      sym (
        ap (λ l. sent_count p.sent + awaited_loads l) e
        ∙ ap (λ k. sent_count p.sent + k) (awaited_loads-append before (false ∷ after)))
      ∙ h in
    let total : sent_count p.sent + awaited_loads (before ++ after) ≡ busy_count p.state.busy =
      omega (arith, n, awaited_loads-append before after) in
    total ∙ ap busy_count (sym (load_end-busy p.state answer))

Step-IsSound : (p q : ReviewPage) (r : Option Request) → Step p r q → IsSound p → IsSound q
Step-IsSound _ _ _ (refresh p free) s = record {
  selection = IsSelection-same p.state _ refl refl s.selection;
  one = s.one;
}
Step-IsSound _ _ _ (loaded p before after awaited answer e) s = record {
  selection =
      IsSelection-same (load_end p.state answer) _ refl refl
        (load_end-IsSelection p.state answer s.selection);
  one = finish_load-one p before after awaited answer e s.one;
}
Step-IsSound _ _ _ (checked p id there) s = record {
  selection = toggle-IsSelection id p.state there s.selection;
  one = s.one;
}
Step-IsSound _ _ _ (all_selected p) s = record {
  selection = select_all-IsSelection p.state;
  one = s.one;
}
Step-IsSound _ _ _ (none_selected p) s = record {
  selection = record { distinct = tt; listed = tt };
  one = s.one;
}
Step-IsSound _ _ _ (typed_category p value) s = record {
  selection = IsSelection-same p.state _ refl refl s.selection;
  one = s.one;
}
Step-IsSound _ _ _ (typed_date p value) s = record {
  selection = IsSelection-same p.state _ refl refl s.selection;
  one = s.one;
}
Step-IsSound _ _ _ (bulk_started p update on) s = start_bulk-IsSound p update on s
Step-IsSound _ _ _ (bulk_finished p request (inl failure) e) s = record {
  selection = IsSelection-same p.state _ refl refl s.selection;
  one = omega (arith, sent_is_one p request e s.one);
}
Step-IsSound _ _ _ (bulk_finished p request (inr result) e) s = record {
  selection = IsSelection-same p.state _ refl refl s.selection;
  one =
      let n : sent_count p.sent ≡ 1 = ap sent_count e in
      omega (arith, n, s.one, busy_count_le p.state.busy);
}

pub Reachable-IsSound : (p : ReviewPage) → Reachable p → IsSound p
Reachable-IsSound _ at_mount = record {
  selection = record { distinct = tt; listed = tt };
  one = refl;
}
Reachable-IsSound _ (after_step p q r before step) =
    Step-IsSound p q r step (Reachable-IsSound p before)

-- In every reachable state of the review queue, the bulk decisions under way, those whose request
-- is out and those that wait for the list, are one if the page is busy and none if it is not.
pub Reachable-busy : (p : ReviewPage) → Reachable p → decisions p ≡ busy_count p.state.busy
Reachable-busy p h = (Reachable-IsSound p h).one
