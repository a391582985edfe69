-- ===== src/Tests/Listing.antt =====
-- The archive's list at concrete inputs.
use clip_to_doc_archive.Session.Roles.{admin}
use clip_to_doc_archive.Archive.Listing.{ApiItem, to_item, Listing, item_ids, settle_deleted}
use clip_to_doc_archive.Archive.Listing.Bulk.{
  IsReported, IsClosed, targets_with, deleted-IsReported,
}
use clip_to_doc_archive.Archive.Listing.Keys.{arrow_down, delete}
use clip_to_doc_archive.Archive.Listing.Keys.Cursor.{
  down, up, press_all, walk, IsOpen, press_all-walk,
}
use clip_to_doc_archive.Archive.Listing.Chosen.{
  IsChosen, Touch, loaded, ticked, all_ticked, key, key_answered, touch_all, IsClean,
}
use clip_to_doc_archive.Archive.Listing.Clean.{touch_all-IsChosen}
use clip_to_doc_archive.Prelude.{
  ◌≡◌, refl, inr, true, false, none, some, List, [], ◌∷◌, map, arith, nat_eq, list_eq, length,
  get_elem?,
}
use clip_to_doc_archive.Text.{Text, codes}

abbrev document : Text → ApiItem
document id = record {
  id = id;
  title = codes "Minutes";
  description = none;
  category = none;
  event_date = none;
  ingested_at = codes "2025-08-01";
  is_pinned = none;
  last_modified_at = none;
  tags = none;
  file_count = none;
  comment_count = none;
  files = none;
  review_status = none;
  review_reasons = none;
}

abbrev three : List ApiItem
three = document (codes "a") ∷ document (codes "b") ∷ document (codes "c") ∷ []

abbrev listing : Listing
listing = record {
  items = map to_item three;
  total = 3;
  docs_loading = false;
  docs_error = [];
  selected_doc_id = some (codes "b");
  is_modal_open = false;
  bulk_selected = codes "b" ∷ codes "c" ∷ [];
  bulk_loading = false;
  bulk_error = [];
  bulk_notice = [];
  refresh_tick = 0;
  user_role = some admin;
}

listing-IsClean : IsClean listing
unfolding to_item
listing-IsClean = record {
  rows = (refl, (refl, (refl, tt)));
  chosen = record { distinct = (refl, (refl, tt)); ticked = (refl, (refl, tt)); selected = refl };
}

abbrev touches : List Touch
touches =
    ticked (codes "a") true
    ∷ key true true arrow_down
    ∷ key true true delete
    ∷ key_answered (codes "c") (inr tt)
    ∷ loaded (inr (document (codes "a") ∷ document (codes "d") ∷ [], 2))
    ∷ all_ticked true
    ∷ []

touch_all-IsChosen_example : IsChosen (touch_all listing touches)
unfolding to_item
touch_all-IsChosen_example =
    touch_all-IsChosen touches listing (tt, (tt, (tt, (tt, ((refl, (refl, tt)), (tt, tt))))))
      listing-IsClean

-- Another document was opened while the deletion was under way.
abbrev elsewhere : Listing
elsewhere = record listing { selected_doc_id = some (codes "a"); is_modal_open = true }

deleted-IsReported_example :
    IsReported
      (codes "게시물 삭제 완료: ")
      (codes "삭제")
      (codes "b" ∷ codes "c" ∷ [])
      (true ∷ false ∷ [])
      elsewhere
      (settle_deleted (some (codes "b")) (codes "b" ∷ codes "c" ∷ []) (true ∷ false ∷ []) elsewhere)
    × IsClosed
        (targets_with true (codes "b" ∷ codes "c" ∷ []) (true ∷ false ∷ []))
        (some (codes "b"))
        elsewhere
        (settle_deleted
          (some (codes "b"))
          (codes "b" ∷ codes "c" ∷ [])
          (true ∷ false ∷ [])
          elsewhere)
deleted-IsReported_example =
    deleted-IsReported (some (codes "b")) (codes "b" ∷ codes "c" ∷ []) (true ∷ false ∷ []) elsewhere
      refl

listing-IsOpen : IsOpen 1 listing
unfolding to_item
listing-IsOpen = record {
  free = refl;
  loaded = refl;
  listed = record { distinct = (refl, (refl, (refl, tt))); named = (refl, (refl, (refl, tt))) };
  within = omega arith;
  at = refl;
}

press_all-walk_example :
    (press_all (down ∷ down ∷ up ∷ []) listing).selected_doc_id
    ≡ get_elem?
        (item_ids (map to_item three))
        (walk (length (item_ids (map to_item three))) (down ∷ down ∷ up ∷ []) 1)
press_all-walk_example = press_all-walk (down ∷ down ∷ up ∷ []) 1 listing listing-IsOpen
