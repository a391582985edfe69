-- ===== src/Media/Loading.antt =====
-- Loading the gallery in batches of pages (`loadMediaBatch`). The server is a function from a page
-- number to the response, `none` where the request fails.
use clip_to_doc_archive.Media.{
  DocumentItem, DocumentPage, CardItem, page_size, scan_pages_per_batch, unique_by_id,
}
use clip_to_doc_archive.Prelude.{
  ℕ, zero, suc, ◌+◌, ◌-◌, ◌/◌, min, max, Bool, true, false, not, ◌&&◌, ◌||◌, Option, none, some,
  List, [], ◌++◌, ltb, leb, nat_beq, if◌then◌else◌, nat_eq, list_eq, length, take, map_filled,
}

pub record GalleryState : Type 0 where
  pub items : List CardItem
  pub next_raw_page : ℕ
  pub has_more_raw : Bool
  pub list_error : Bool
  pub loading_initial : Bool
  pub loading_more : Bool

-- `res.total > 0 ? Math.ceil(res.total / Math.max(1, res.size || PAGE_SIZE)) : 0`
unfoldable pub computed_max_pages : (total size : ℕ) → ℕ
computed_max_pages total size =
    let per_page = max 1 (if nat_beq size 0 then page_size else size) in
    (total + (per_page - 1)) / per_page

-- Where a batch stands: `max_pages` is `none` while it is infinite.
pub record Scan : Type 0 where
  pub page_cursor : ℕ
  pub max_pages : Option ℕ
  pub collected : List CardItem

abbrev pub within : ℕ → Option ℕ → Bool
within page none = true
within page (some n) = leb page n

abbrev pub least : Option ℕ → ℕ → ℕ
least none n = n
least (some m) n = min m n

abbrev pub first_scan : ℕ → Scan
first_scan start = record { page_cursor = start; max_pages = none; collected = [] }

abbrev pub has_more : ℕ → Option ℕ → Bool
has_more page none = true
has_more page (some n) = leb page n && ltb 0 n

-- What a batch that succeeds does to the state; loading flags are false again at the end.
abbrev pub commit : Bool → GalleryState → Scan → GalleryState
commit reset g s =
    let next_items = take page_size (unique_by_id s.collected) in
    record g {
      items = if reset then next_items else unique_by_id (g.items ++ next_items);
      next_raw_page = s.page_cursor;
      has_more_raw = has_more s.page_cursor s.max_pages;
    }

-- `setLoading…(true); setListError("")`
abbrev pub begin_load : Bool → GalleryState → GalleryState
begin_load true g = record g { loading_initial = true; list_error = false }
begin_load false g = record g { loading_more = true; list_error = false }

abbrev pub end_load : Bool → GalleryState → GalleryState
end_load true g = record g { loading_initial = false }
end_load false g = record g { loading_more = false }

-- One round: the scan behind the page, and whether the loop is left by a `break`.
unfoldable pub add_page : (DocumentItem → Option CardItem) → Scan → DocumentPage → Scan × Bool
add_page to_card s res =
    let pages = computed_max_pages res.total res.size in
    let collected = s.collected ++ map_filled to_card res.items in
    (
      record {
        page_cursor = s.page_cursor + 1;
        max_pages = some (least s.max_pages pages);
        collected = collected;
      },
      nat_beq pages 0 || leb page_size (length collected),
    )

module _ (to_card : DocumentItem → Option CardItem) (server : ℕ → Option DocumentPage) where
  -- The loop, with the rounds that are left; `none` where a request fails.
  unfoldable pub scan_pages : ℕ → Scan → Option Scan
  unfolding add_page
  scan_pages zero s = some s
  scan_pages (suc rounds) s =
      if not (within s.page_cursor s.max_pages) then some s else elim (server s.page_cursor) [
        | none ↦ none
        | some res ↦
            let (t, stop) = add_page to_card s res in
            let rest = scan_pages rounds t in if stop then some t else rest
      ]

  unfoldable pub load_media_batch : (reset : Bool) → (start : ℕ) → GalleryState → GalleryState
  unfolding scan_pages unique_by_id computed_max_pages
  load_media_batch reset start g =
      let g' = begin_load reset g in
      elim (scan_pages scan_pages_per_batch (first_scan start)) [
        | none ↦ end_load reset (record g' { list_error = true })
        | some s ↦ end_load reset (commit reset g' s)
      ]
