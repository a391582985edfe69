-- ===== src/Media/Batches.antt =====
-- The pages that a batch of the gallery reads and the cards that it collects (`loadMediaBatch` in
-- components/media/MediaWorkspace.tsx).
use mathlib.Core.Option.{some-injective}
use clip_to_doc_archive.Media.{
  DocumentItem, DocumentPage, CardItem, page_size, scan_pages_per_batch, unique_from, unique_by_id,
}
use clip_to_doc_archive.Media.Loading.{
  GalleryState, Scan, within, add_page, scan_pages, first_scan, commit, begin_load, end_load,
  load_media_batch,
}
use clip_to_doc_archive.Prelude.{
  subst, ℕ, zero, suc, ◌+◌, ◌≤◌, ◌<◌, ◌≡◌, refl, sym, ◌∙◌, inl, inr, Bool, true, false, ◌||◌,
  Option, none, some, List, [], ◌∷◌, ◌++◌, map, arith, Bool-cases, Option-cases, nat_eq,
  list_beq_iff, list_eq, take, contains, Distinct, contains_self, append_assoc, append-nil,
  map_filled,
}
use clip_to_doc_archive.Text.{Text}

abbrev pub ids : List CardItem → List Text
ids = map (λ c. c.id)

-- Unique items are new to what was seen, and differ.
unique_from-Distinct :
    (seen : List Text) (items : List CardItem)
    → Distinct (ids (unique_from seen items))
      × ((k : Text) → contains seen k ≡ true → contains (ids (unique_from seen items)) k ≡ false)
unfolding unique_from
unique_from-Distinct seen [] = (tt, λ k h. refl)
unique_from-Distinct seen (item ∷ items) = elim (Bool-cases (contains seen item.id)) [
  | inl old ↦ rw old (unique_from-Distinct seen items)
  | inr new ↦
      let (d, apart) = unique_from-Distinct (item.id ∷ seen) items in
      rw new (
        (apart item.id (contains_self item.id seen), d),
        λ k h. ground (arith, apart k, list_beq_iff k item.id),
      )
]

pub unique_by_id-Distinct : (items : List CardItem) → Distinct (ids (unique_by_id items))
unfolding unique_by_id
unique_by_id-Distinct items = (unique_from-Distinct [] items).0

contains-take :
    (n : ℕ) (items : List CardItem) (k : Text)
    → contains (ids items) k ≡ false
    → contains (ids (take n items)) k ≡ false
contains-take zero items k h = refl
contains-take (suc n) [] k h = refl
contains-take (suc n) (item ∷ items) k h = ground (arith, contains-take n items k)

Distinct-take :
    (n : ℕ) (items : List CardItem) → Distinct (ids items) → Distinct (ids (take n items))
Distinct-take zero items h = tt
Distinct-take (suc n) [] h = tt
Distinct-take (suc n) (item ∷ items) h =
    (contains-take n items item.id h.0, Distinct-take n items h.1)

-- What is in a list, or was seen, is in the unique list or was seen.
contains-unique_from :
    (seen : List Text) (items : List CardItem) (k : Text)
    → contains seen k || contains (ids (unique_from seen items)) k
      ≡ contains seen k || contains (ids items) k
unfolding unique_from
contains-unique_from seen [] k = refl
contains-unique_from seen (item ∷ items) k = elim (Bool-cases (contains seen item.id)) [
  | inl old ↦ rw old (ground (arith, contains-unique_from seen items k, list_beq_iff k item.id))
  | inr new ↦ rw new (ground (arith, contains-unique_from (item.id ∷ seen) items k))
]

pub contains-unique_by_id :
    (items : List CardItem) (k : Text)
    → contains (ids (unique_by_id items)) k ≡ contains (ids items) k
unfolding unique_by_id
contains-unique_by_id items k = contains-unique_from [] items k

module _ (to_card : DocumentItem → Option CardItem) (server : ℕ → Option DocumentPage) where
  abbrev pub page_cards : Option DocumentPage → List CardItem
  page_cards none = []
  page_cards (some res) = map_filled to_card res.items

  -- The cards of `count` pages from `start` on.
  abbrev pub gather : (start count : ℕ) → List CardItem
  gather start zero = []
  gather start (suc count) = page_cards (server start) ++ gather (suc start) count

  -- `t` is `s` after `count` further pages.
  pub record IsAfter (s t : Scan) (count : ℕ) : Type 0 where
    pub cursor : t.page_cursor ≡ s.page_cursor + count
    pub cards : t.collected ≡ s.collected ++ gather s.page_cursor count

  IsAfter-zero : (s : Scan) → IsAfter s s 0
  IsAfter-zero s = record { cursor = omega arith; cards = sym (append-nil s.collected) }

  IsAfter-suc :
      (s t : Scan) (res : DocumentPage) (count : ℕ)
      → server s.page_cursor ≡ some res
      → IsAfter (add_page to_card s res).0 t count
      → IsAfter s t (suc count)
  unfolding add_page
  IsAfter-suc s t res count given a = record {
    cursor = omega (arith, a.cursor);
    cards =
        a.cards
        ∙ append_assoc s.collected (map_filled to_card res.items) (gather (s.page_cursor + 1) count)
        ∙ (let e : s.page_cursor + 1 ≡ suc s.page_cursor = omega arith in rw (given, e));
  }

  -- A batch reads consecutive pages, at most one for each round, and collects all their cards.
  scan_pages-IsAfter :
      (rounds : ℕ) (s t : Scan)
      → scan_pages to_card server rounds s ≡ some t
      → (count : ℕ) × (count ≤ rounds) × IsAfter s t count
  unfolding scan_pages
  scan_pages-IsAfter zero s t e =
      (0, omega arith, subst (λ u. IsAfter s u 0) (some-injective s t e) (IsAfter-zero s))
  scan_pages-IsAfter (suc rounds) s t e = elim (Bool-cases (within s.page_cursor s.max_pages)) [
    | inr beyond ↦ (
      0,
      omega arith,
      subst (λ u. IsAfter s u 0) (some-injective s t (rw (beyond, scan_pages) at e))
          (IsAfter-zero s),
    )
    | inl here ↦ elim (Option-cases (server s.page_cursor)) [
      | inl failed ↦ cc (rw (here, failed, scan_pages) at e)
      | inr (res, given) ↦ elim (Bool-cases (add_page to_card s res).1) [
        | inl stop ↦
            let same = some-injective _ t (rw (here, given, stop, scan_pages) at e) in
            (
              1,
              omega arith,
              subst (λ u. IsAfter s u 1) same (IsAfter-suc s _ res 0 given (IsAfter-zero _)),
            )
        | inr more ↦
            let (count, bound, a) =
              scan_pages-IsAfter rounds (add_page to_card s res).0 t
                (rw (here, given, more, scan_pages) at e) in
            (suc count, omega arith, IsAfter-suc s t res count given a)
      ]
    ]
  ]

  -- A batch that succeeds has read its first page.
  pub scan_pages-first :
      (rounds start : ℕ) (t : Scan)
      → scan_pages to_card server (suc rounds) (first_scan start) ≡ some t
      → (count : ℕ) × (0 < count) × (count ≤ suc rounds) × IsAfter (first_scan start) t count
  unfolding scan_pages
  scan_pages-first rounds start t e = elim (Option-cases (server start)) [
    | inl failed ↦ cc (rw (failed, scan_pages) at e)
    | inr (res, given) ↦ elim (Bool-cases (add_page to_card (first_scan start) res).1) [
      | inl stop ↦
          let same = some-injective _ t (rw (given, stop, scan_pages) at e) in
          (
            1,
            omega arith,
            omega arith,
            subst (λ u. IsAfter (first_scan start) u 1) same
                (IsAfter-suc (first_scan start) _ res 0 given (IsAfter-zero _)),
          )
      | inr more ↦
          let (count, bound, a) =
            scan_pages-IsAfter rounds (add_page to_card (first_scan start) res).0 t
              (rw (given, more, scan_pages) at e) in
          (suc count, omega arith, omega arith, IsAfter-suc (first_scan start) t res count given a)
    ]
  ]

  -- If no two cards of the gallery have the same identifier, none have after a load, whether it
  -- resets the gallery or extends it, succeeds or fails.
  load_media_batch-Distinct :
      (reset : Bool) (start : ℕ) (g : GalleryState)
      → Distinct (ids g.items)
      → Distinct (ids (load_media_batch to_card server reset start g).items)
  unfolding load_media_batch
  load_media_batch-Distinct reset start g d =
      elim (Option-cases (scan_pages to_card server scan_pages_per_batch (first_scan start))) [
        | inl failed ↦ rw (failed, load_media_batch) (kept reset)
        | inr (t, done) ↦ rw (done, load_media_batch) (shown reset t)
      ]
    where
      kept :
          (r : Bool)
          → Distinct (ids (end_load r (record (begin_load r g) { list_error = true })).items)
      kept true = d
      kept false = d

      shown :
          (r : Bool) (t : Scan) → Distinct (ids (end_load r (commit r (begin_load r g) t)).items)
      shown true t = Distinct-take page_size _ (unique_by_id-Distinct t.collected)
      shown false t = unique_by_id-Distinct _
