-- ===== src/Review/Requests.antt =====
-- Laws of the bulk requests of the review queue (components/review/ReviewQueueManager.tsx).
use mathlib.Core.Option.{some-injective}
use clip_to_doc_archive.Review.{
  ReviewState, Update, Request, ReviewPage, document_ids, launch, start_bulk, Step, bulk_started,
  Reachable,
}
use clip_to_doc_archive.Review.Steps.{
  IsSound, run_bulk_empty, run_bulk-some, is_enabled-busy, Reachable-IsSound,
}
use clip_to_doc_archive.Prelude.{
  subst, ◌<◌, ◌≡◌, refl, sym, ap, ◌∙◌, inl, inr, true, false, Option, none, some, List, [], ◌∷◌,
  arith, Bool-cases, nat_eq, list_eq, length, is_empty, All, contains, Distinct,
}

abbrev sent_request : Update → ReviewState → Request
sent_request update s = record { document_ids = s.selected; update = update }

length_of_filled : {A : Type 0} (xs : List A) → is_empty xs ≡ false → 0 < length xs
length_of_filled [] h = cc
length_of_filled (x ∷ xs) h = omega arith

-- A request that names at least one document, none twice, only documents of the list that `p`
-- shows, sent where nothing was busy and under way in `q`.
abbrev pub IsProper : ReviewPage → ReviewPage → Request → Type 0
IsProper p q request =
    (0 < length request.document_ids)
    × Distinct request.document_ids
    × All (λ k. contains (document_ids p.state.items) k ≡ true) request.document_ids
    × (p.state.busy ≡ false)
    × (q.sent ≡ some request)

-- In every reachable state of the review queue, a bulk request that a step sends names at least
-- one document, none twice, and only documents of the list that is shown; it is sent where no
-- decision is busy, and it is under way afterwards.
pub request-IsProper :
    (p q : ReviewPage) (request : Request)
    → Reachable p
    → Step p (some request) q
    → IsProper p q request
request-IsProper p q request h step =
    go p (some request) q step request refl (Reachable-IsSound p h)
  where
    go :
        (p : ReviewPage) (r : Option Request) (q : ReviewPage)
        → Step p r q
        → (request : Request) → r ≡ some request
        → IsSound p
        → IsProper p q request
    go _ _ _ (bulk_started p update on) request e s =
        elim (Bool-cases (is_empty p.state.selected)) [
          | inl none_chosen ↦
              let k : none ≡ some request =
                sym (ap (λ x. x.1) (run_bulk_empty update p.state none_chosen)) ∙ e in
              cc
          | inr chosen ↦
              let sent_as : some (sent_request update p.state) ≡ some request =
                sym (ap (λ x. x.1) (run_bulk-some update p.state chosen)) ∙ e in
              let same = some-injective (sent_request update p.state) request sent_as in
              subst (IsProper p (start_bulk update p)) same (
                length_of_filled p.state.selected chosen,
                s.selection.distinct,
                s.selection.listed,
                is_enabled-busy update p.state on,
                ap (λ x. (launch p x).sent) (run_bulk-some update p.state chosen),
              )
        ]
    go _ _ _ _ request e s = cc
