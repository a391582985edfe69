-- ===== src/Media/Dropped.antt =====
-- What a load of the gallery shows of the pages that it read (`loadMediaBatch` in
-- components/media/MediaWorkspace.tsx).
use clip_to_doc_archive.Media.{
  DocumentItem, DocumentPage, CardItem, page_size, scan_pages_per_batch, unique_by_id,
}
use clip_to_doc_archive.Media.Loading.{
  GalleryState, Scan, scan_pages, first_scan, commit, begin_load, end_load, load_media_batch,
}
use clip_to_doc_archive.Media.Batches.{
  ids, unique_by_id-Distinct, contains-unique_by_id, gather, scan_pages-first,
}
use clip_to_doc_archive.Prelude.{
  subst, All-contains, ℕ, zero, suc, ◌+◌, ◌≤◌, ◌<◌, ◌≡◌, refl, sym, ap, ◌∙◌, ◌⊎◌, inl, inr, Bool,
  true, false, Option, some, List, [], ◌∷◌, ◌++◌, arith, Option-cases, nat_eq, list_beq_iff,
  list_eq, length, take, take_all, All, contains, Distinct, contains-append, contains_self,
}
use clip_to_doc_archive.Text.{Text}

ids-append : (xs ys : List CardItem) → ids (xs ++ ys) ≡ ids xs ++ ids ys
ids-append [] ys = refl
ids-append (x ∷ xs) ys = ap (◌∷◌ x.id) (ids-append xs ys)

contains-append_right :
    (xs ys : List CardItem) (k : Text)
    → contains (ids ys) k ≡ true
    → contains (ids (xs ++ ys)) k ≡ true
contains-append_right xs ys k h =
    rw (ids-append xs ys, contains-append (ids xs) (ids ys) k) (ground arith)

-- A card behind the first `n` of a list without repetition is not among them.
beyond_take :
    (n : ℕ) (items : List CardItem)
    → Distinct (ids items)
    → n < length items
    → (k : Text) × (contains (ids items) k ≡ true) × (contains (ids (take n items)) k ≡ false)
beyond_take n [] d h = absurd (omega arith)
beyond_take zero (item ∷ items) d h = (item.id, contains_self item.id (ids items), refl)
beyond_take (suc n) (item ∷ items) d h =
    let (k, there, hidden) = beyond_take n items d.1 (omega arith) in
    (k, ground arith, ground (arith, list_beq_iff k item.id))

-- The cards that a batch of `cards` leaves in the gallery: the first 48 different ones of the batch
-- alone, or behind those that were there.
abbrev pub cards_after : (reset : Bool) → GalleryState → List CardItem → List CardItem
cards_after true g cards = take page_size (unique_by_id cards)
cards_after false g cards = unique_by_id (g.items ++ take page_size (unique_by_id cards))

-- The load failed: nothing that was shown has changed.
abbrev pub HasFailed : GalleryState → GalleryState → Type 0
HasFailed g h = (h.list_error ≡ true) × (h.items ≡ g.items) × (h.next_raw_page ≡ g.next_raw_page)

-- The load succeeded with `count` pages from `start` on.
abbrev pub HasRead : (start count : ℕ) → GalleryState → Type 0
HasRead start count h =
    (h.list_error ≡ false)
    × (0 < count)
    × (count ≤ scan_pages_per_batch)
    × (h.next_raw_page ≡ start + count)

-- Every one of the cards is shown.
abbrev pub ShowsAll : List CardItem → GalleryState → Type 0
ShowsAll cards h = All (λ k. contains (ids h.items) k ≡ true) (ids cards)

abbrev pub IsLoaded : (reset : Bool) → GalleryState → Type 0
IsLoaded true g = g.loading_initial ≡ false
IsLoaded false g = g.loading_more ≡ false

module _ (to_card : DocumentItem → Option CardItem) (server : ℕ → Option DocumentPage) where
  commit-ShowsAll :
      (reset : Bool) (g : GalleryState) (t : Scan)
      → length (unique_by_id t.collected) ≤ page_size
      → ShowsAll t.collected (commit reset g t)
  commit-ShowsAll reset g t few = All-contains _ (ids t.collected) (λ k there.
      let all_taken : take page_size (unique_by_id t.collected) ≡ unique_by_id t.collected =
        take_all page_size _ few in
      let found : contains (ids (unique_by_id t.collected)) k ≡ true =
        contains-unique_by_id t.collected k ∙ there in
      elim reset as (λ r. contains (ids (commit r g t).items) k ≡ true) [
        | true ↦ ap (λ l. contains (ids l) k) all_taken ∙ found
        | false ↦
            contains-unique_by_id (g.items ++ take page_size (unique_by_id t.collected)) k
            ∙ contains-append_right g.items _ k (ap (λ l. contains (ids l) k) all_taken ∙ found)
      ])

  read_of :
      (reset : Bool) (g : GalleryState) (start : ℕ) (t : Scan) (count : ℕ)
      → 0 < count
      → count ≤ scan_pages_per_batch
      → t.page_cursor ≡ start + count
      → HasRead start count (end_load reset (commit reset (begin_load reset g) t))
  read_of true g start t count some' few e = (refl, some', few, e)
  read_of false g start t count some' few e = (refl, some', few, e)

  -- What a load of `count` pages from `start` on shows.
  abbrev pub HasShown : (reset : Bool) → (start count : ℕ) → (g h : GalleryState) → Type 0
  HasShown reset start count g h =
      HasRead start count h × (h.items ≡ cards_after reset g (gather to_card server start count))

  shown_of :
      (reset : Bool) (g : GalleryState) (start : ℕ) (t : Scan) (count : ℕ)
      → t.collected ≡ gather to_card server start count
      → (end_load reset (commit reset (begin_load reset g) t)).items
        ≡ cards_after reset g (gather to_card server start count)
  shown_of true g start t count e = ap (cards_after true g) e
  shown_of false g start t count e = ap (cards_after false g) e

  -- A load ends with its loading flag down, and it either reports an error and changes neither the
  -- cards nor the next page, or reports none and shows the first 48 different cards of between one
  -- and four consecutive pages from its first page on, alone or behind those that were there, with
  -- the next page behind them.
  pub load_media_batch-cases :
      (reset : Bool) (start : ℕ) (g : GalleryState)
      → IsLoaded reset (load_media_batch to_card server reset start g)
        × (HasFailed g (load_media_batch to_card server reset start g)
            ⊎ ((count : ℕ) × HasShown reset start count g
                  (load_media_batch to_card server reset start g)))
  unfolding load_media_batch
  load_media_batch-cases reset start g =
      elim (Option-cases (scan_pages to_card server scan_pages_per_batch (first_scan start))) [
        | inl failed ↦ rw (failed, load_media_batch) (kept reset)
        | inr (t, done) ↦
            let (count, some', few, a) = scan_pages-first to_card server 3 start t done in
            rw (done, load_media_batch)
              (
                ended reset t,
                inr (
                  count,
                  (
                    read_of reset g start t count some' few a.cursor,
                    shown_of reset g start t count a.cards,
                  ),
                ),
              )
      ]
    where
      kept :
          (r : Bool)
          → IsLoaded r (end_load r (record (begin_load r g) { list_error = true }))
            × (HasFailed g (end_load r (record (begin_load r g) { list_error = true }))
                ⊎ ((count : ℕ) × HasShown r start count g
                      (end_load r (record (begin_load r g) { list_error = true }))))
      kept true = (refl, inl (refl, refl, refl))
      kept false = (refl, inl (refl, refl, refl))

      ended : (r : Bool) (t : Scan) → IsLoaded r (end_load r (commit r (begin_load r g) t))
      ended true t = refl
      ended false t = refl

  -- Where the requests of a batch succeed and the different documents with media that it collects
  -- are at most 48, the load reads between one and four consecutive pages from its first page on,
  -- sets the next page behind them, and shows every document with media of these pages.
  pub load_media_batch-ShowsAll :
      (reset : Bool) (start : ℕ) (g : GalleryState) (t : Scan)
      → scan_pages to_card server scan_pages_per_batch (first_scan start) ≡ some t
      → length (unique_by_id t.collected) ≤ page_size
      → (count : ℕ) × HasRead start count (load_media_batch to_card server reset start g)
        × ShowsAll
            (gather to_card server start count)
            (load_media_batch to_card server reset start g)
  unfolding load_media_batch
  load_media_batch-ShowsAll reset start g t done few =
      let (count, some', bound, a) = scan_pages-first to_card server 3 start t done in
      rw (done, load_media_batch)
        (
          count,
          read_of reset g start t count some' bound a.cursor,
          subst (λ c. ShowsAll c (end_load reset (commit reset (begin_load reset g) t))) a.cards
              (shown reset),
        )
    where
      shown : (r : Bool) → ShowsAll t.collected (end_load r (commit r (begin_load r g) t))
      shown true = commit-ShowsAll true (begin_load true g) t few
      shown false = commit-ShowsAll false (begin_load false g) t few

  -- Where the requests of a first load succeed and the different documents with media that it
  -- collects are more than 48, one of the documents with media of the pages that it has read is
  -- not shown, though the next load begins behind these pages.
  pub load_media_batch-drops :
      (start : ℕ) (g : GalleryState) (t : Scan)
      → scan_pages to_card server scan_pages_per_batch (first_scan start) ≡ some t
      → page_size < length (unique_by_id t.collected)
      → (count : ℕ) × HasRead start count (load_media_batch to_card server true start g)
        × (k : Text) × (contains (ids (gather to_card server start count)) k ≡ true)
        × (contains (ids (load_media_batch to_card server true start g).items) k ≡ false)
  unfolding load_media_batch
  load_media_batch-drops start g t done many =
      let (count, some', few, a) = scan_pages-first to_card server 3 start t done in
      let (k, there, hidden) = beyond_take page_size _ (unique_by_id-Distinct t.collected) many in
      rw (done, load_media_batch)
        (
          count,
          (refl, some', few, a.cursor),
          k,
          sym (ap (λ c. contains (ids c) k) a.cards)
              ∙ sym (contains-unique_by_id t.collected k)
              ∙ there,
          hidden,
        )
