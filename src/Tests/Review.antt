-- ===== src/Tests/Review.antt =====
-- The review queue on concrete events.
use clip_to_doc_archive.Review.{
  ReviewItem, ReviewPage, Request, approve, loaded, all_selected, bulk_started, Reachable, at_mount,
  after_step, mounted, finish_load, select_all, start_bulk,
}
use clip_to_doc_archive.Review.Steps.{decisions, busy_count, Reachable-busy}
use clip_to_doc_archive.Review.Requests.{IsProper, request-IsProper}
use clip_to_doc_archive.Prelude.{◌≡◌, refl, inr, false, none, some, [], ◌∷◌, nat_eq, list_eq}
use clip_to_doc_archive.Text.{Text, codes}

abbrev an_item : Text → ReviewItem
an_item id = record {
  document_id = id;
  reasons = [];
  title = id;
  source_ref = none;
  suggested_actions = [];
}

abbrev with_list : ReviewPage
with_list = finish_load [] false [] (inr (an_item (codes "a") ∷ an_item (codes "b") ∷ [])) mounted

abbrev with_all : ReviewPage
with_all = record with_list { state = select_all with_list.state }

with_all-Reachable : Reachable with_all
with_all-Reachable =
    after_step with_list with_all none
      (after_step mounted with_list none at_mount
        (loaded mounted [] [] false (inr (an_item (codes "a") ∷ an_item (codes "b") ∷ [])) refl))
      (all_selected with_list)

abbrev both : Request
both = record { document_ids = codes "a" ∷ codes "b" ∷ []; update = approve }

request-IsProper_example : IsProper with_all (start_bulk approve with_all) both
request-IsProper_example =
    request-IsProper with_all (start_bulk approve with_all) both with_all-Reachable
      (bulk_started with_all approve refl)

Reachable-busy_example :
    decisions (start_bulk approve with_all) ≡ busy_count (start_bulk approve with_all).state.busy
Reachable-busy_example =
    Reachable-busy (start_bulk approve with_all)
      (after_step with_all _ (some both) with_all-Reachable (bulk_started with_all approve refl))
