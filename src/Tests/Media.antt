-- ===== src/Tests/Media.antt =====
-- The gallery at concrete inputs: one page with media, and a page with more than a batch holds.
use clip_to_doc_archive.Tests.Case.{ascii_lower}
use clip_to_doc_archive.Media.{
  DocumentItem, DocumentPage, CardItem, page_size, scan_pages_per_batch, unique_by_id,
  to_media_card_item, detect_media_kind, image, video,
}
use clip_to_doc_archive.Media.Loading.{
  GalleryState, Scan, scan_pages, first_scan, load_media_batch, computed_max_pages,
}
use clip_to_doc_archive.Media.Batches.{ids, gather}
use clip_to_doc_archive.Media.Dropped.{
  HasFailed, HasRead, HasShown, ShowsAll, IsLoaded, load_media_batch-cases,
  load_media_batch-ShowsAll, load_media_batch-drops,
}
use clip_to_doc_archive.Prelude.{
  ℕ, zero, suc, ◌≤◌, ◌<◌, ◌≡◌, refl, ◌⊎◌, true, false, Option, none, some, List, [], ◌∷◌, arith,
  nat_eq, list_eq, length, contains, map_filled,
}
use clip_to_doc_archive.Text.{Text, codes}

kinds :
    (detect_media_kind ascii_lower (codes " A.b.JPG ") [] ≡ some image)
    × (detect_media_kind ascii_lower (codes "a.") [] ≡ none)
    × (detect_media_kind ascii_lower (codes "a.txt") (codes "Video/MP4") ≡ some video)
unfolding detect_media_kind
kinds = (refl, refl, refl)

abbrev document : ℕ → DocumentItem
document n = record {
  id = n ∷ [];
  title = [];
  description = [];
  event_date = none;
  ingested_at = [];
  file_count = 1;
  files =
      record {
        id = n ∷ [];
        original_filename = codes "p.png";
        mime_type = [];
        size_bytes = 1;
        download_path = [];
      }
      ∷ [];
}

abbrev documents : ℕ → List DocumentItem
documents zero = []
documents (suc n) = document n ∷ documents n

-- Every page holds the given number of documents.
abbrev full_server : ℕ → ℕ → Option DocumentPage
full_server count page =
    some (record { items = documents count; page = page; size = 50; total = 50 })

abbrev start_state : GalleryState
start_state = record {
  items = [];
  next_raw_page = 1;
  has_more_raw = true;
  list_error = false;
  loading_initial = true;
  loading_more = false;
}

abbrev to_card : DocumentItem → Option CardItem
to_card = to_media_card_item ascii_lower (codes "/api")

load_media_batch-cases_example :
    IsLoaded true (load_media_batch to_card (full_server 2) true 1 start_state)
    × (HasFailed start_state (load_media_batch to_card (full_server 2) true 1 start_state)
        ⊎ ((count : ℕ) × HasShown to_card
              (full_server 2)
              true
              1
              count
              start_state
              (load_media_batch to_card (full_server 2) true 1 start_state)))
load_media_batch-cases_example = load_media_batch-cases to_card (full_server 2) true 1 start_state

abbrev after_a_small_page : Scan
after_a_small_page = record {
  page_cursor = 2;
  max_pages = some 1;
  collected = map_filled to_card (documents 2);
}

small_page :
    scan_pages to_card (full_server 2) scan_pages_per_batch (first_scan 1) ≡ some after_a_small_page
unfolding scan_pages to_media_card_item computed_max_pages
small_page = refl

few_enough : length (unique_by_id after_a_small_page.collected) ≤ page_size
unfolding to_media_card_item unique_by_id
few_enough = omega arith

load_media_batch-ShowsAll_example :
    (count : ℕ) × HasRead 1 count (load_media_batch to_card (full_server 2) false 1 start_state)
    × ShowsAll
        (gather to_card (full_server 2) 1 count)
        (load_media_batch to_card (full_server 2) false 1 start_state)
load_media_batch-ShowsAll_example =
    load_media_batch-ShowsAll to_card (full_server 2) false 1 start_state after_a_small_page
      small_page few_enough

abbrev after_one_page : Scan
after_one_page = record {
  page_cursor = 2;
  max_pages = some 1;
  collected = map_filled to_card (documents 50);
}

one_page :
    scan_pages to_card (full_server 50) scan_pages_per_batch (first_scan 1) ≡ some after_one_page
unfolding scan_pages to_media_card_item computed_max_pages
one_page = refl

too_many : page_size < length (unique_by_id after_one_page.collected)
unfolding to_media_card_item unique_by_id
too_many = omega arith

load_media_batch-drops_example :
    (count : ℕ) × HasRead 1 count (load_media_batch to_card (full_server 50) true 1 start_state)
    × (k : Text) × (contains (ids (gather to_card (full_server 50) 1 count)) k ≡ true)
    × (contains (ids (load_media_batch to_card (full_server 50) true 1 start_state).items) k
        ≡ false)
load_media_batch-drops_example =
    load_media_batch-drops to_card (full_server 50) 1 start_state after_one_page one_page too_many
