-- ===== src/Archive/Listing/Clean.antt =====
-- The documents that are ticked or selected, over time (components/archive/ArchiveWorkspace.tsx).
use clip_to_doc_archive.Archive.Listing.{
  Listing, item_ids, toggle_doc_selection, toggle_select_all_on_page,
}
use clip_to_doc_archive.Archive.Listing.Keys.{
  Key, arrow_down, arrow_up, enter, delete, other, select_at, react, on_key_down, key_deleted,
  deletion, start_deletion, is_filled,
}
use clip_to_doc_archive.Archive.Listing.Chosen.{
  IsChosen, Touch, loaded, ticked, all_ticked, cleared, row_opened, key, key_answered, touch,
  touch_all, IsFair, IsClean, keep_if-listed, get_elem?-IsIn, loaded-IsClean,
}
use clip_to_doc_archive.Prelude.{
  All-contains, Distinct-keep_if, ℕ, ◌≡◌, ◌⊎◌, inl, inr, Bool, true, false, not, ◌||◌, Option, none,
  some, List, [], ◌∷◌, ◌++◌, Bool-cases, ◌==◌, nat_eq, list_eq, is_empty, keep_if, All, All-append,
  contains, Distinct, Distinct-concat,
}
use clip_to_doc_archive.Text.{Text}

All_listed : (ids : List Text) → All (λ id. contains ids id ≡ true) ids
All_listed ids = All-contains (λ id. contains ids id ≡ true) ids (λ id there. there)

module _ (l : Listing) (h : IsClean l) where
  -- Other ticks on the same rows.
  with_ticks :
      (ids : List Text)
      → Distinct ids
      → All (λ id. contains (item_ids l.items) id ≡ true) ids
      → IsClean (record l { bulk_selected = ids })
  with_ticks ids d a = record {
    rows = h.rows;
    chosen = record { distinct = d; ticked = a; selected = h.chosen.selected };
  }

  untick : (p : Text → Bool) → IsClean (record l { bulk_selected = keep_if p l.bulk_selected })
  untick p =
      with_ticks (keep_if p l.bulk_selected) (Distinct-keep_if p l.bulk_selected h.chosen.distinct)
        (keep_if-listed p _ l.bulk_selected h.chosen.ticked)

  toggle-IsClean :
      (id : Text) (checked : Bool)
      → contains (item_ids l.items) id ≡ true
      → IsClean (toggle_doc_selection id checked l)
  unfolding toggle_doc_selection
  toggle-IsClean id false there = untick (λ k. not (k == id))
  toggle-IsClean id true there = elim (Bool-cases (contains l.bulk_selected id)) [
    | inl old ↦ rw old h
    | inr new ↦ rw new (
        with_ticks (l.bulk_selected ++ id ∷ [])
          (Distinct-concat l.bulk_selected id h.chosen.distinct new)
          (All-append _ l.bulk_selected (id ∷ []) h.chosen.ticked (there, tt)))
  ]

  selected-IsClean : (i : ℕ) → IsClean (select_at i l)
  selected-IsClean i = record {
    rows = h.rows;
    chosen = record {
      distinct = h.chosen.distinct;
      ticked = h.chosen.ticked;
      selected = get_elem?-IsIn (item_ids l.items) i;
    };
  }

  -- Flags and messages do not matter.
  flags-IsClean :
      (modal loading : Bool) (error notice : Text) (tick : ℕ)
      → IsClean (record l {
        is_modal_open = modal;
        bulk_loading = loading;
        bulk_error = error;
        bulk_notice = notice;
        refresh_tick = tick;
      })
  flags-IsClean modal loading error notice tick = record {
    rows = h.rows;
    chosen = record {
      distinct = h.chosen.distinct;
      ticked = h.chosen.ticked;
      selected = h.chosen.selected;
    };
  }

  deletion-IsClean : (o : Option Text) → IsClean (start_deletion o l).0
  deletion-IsClean none = h
  deletion-IsClean (some id) = flags-IsClean _ _ _ _ _

  react-IsClean : (confirmed : Bool) (k : Key) → IsClean (react confirmed k l).0
  react-IsClean confirmed arrow_down = selected-IsClean _
  react-IsClean confirmed arrow_up = selected-IsClean _
  react-IsClean confirmed enter = elim (Bool-cases (is_filled l.selected_doc_id)) [
    | inl full ↦ rw full (flags-IsClean _ _ _ _ _)
    | inr blank ↦ rw blank h
  ]
  react-IsClean confirmed delete = deletion-IsClean (deletion confirmed l)
  react-IsClean confirmed other = h

  key_deleted-IsClean : (id : Text) (answer : Text ⊎ Unit {0}) → IsClean (key_deleted id answer l)
  unfolding key_deleted
  key_deleted-IsClean id (inr ok) =
      let k = untick (λ other_id. not (other_id == id)) in
      record {
        rows = h.rows;
        chosen = record { distinct = k.chosen.distinct; ticked = k.chosen.ticked; selected = tt };
      }
  key_deleted-IsClean id (inl message) = flags-IsClean _ _ _ _ _

  on_key-IsClean : (plain confirmed : Bool) (k : Key) → IsClean (on_key_down plain confirmed k l).0
  unfolding on_key_down
  on_key-IsClean plain confirmed k =
      elim (Bool-cases (l.is_modal_open || l.docs_loading || is_empty l.items || not plain)) [
        | inl blocked ↦ rw blocked h
        | inr free ↦ rw free (react-IsClean confirmed k)
      ]

  touch-IsClean : (t : Touch) → IsFair t → IsClean (touch l t)
  unfolding touch
  touch-IsClean (loaded answer) f = loaded-IsClean answer l f h
  touch-IsClean (ticked id checked) f = elim (Bool-cases (contains (item_ids l.items) id)) [
    | inl there ↦ rw there (toggle-IsClean id checked there)
    | inr missing ↦ rw missing h
  ]
  touch-IsClean (all_ticked true) f =
      unfold toggle_select_all_on_page in
      with_ticks (item_ids l.items) h.rows (All_listed (item_ids l.items))
  touch-IsClean (all_ticked false) f = unfold toggle_select_all_on_page in with_ticks [] tt tt
  touch-IsClean cleared f = with_ticks [] tt tt
  touch-IsClean (row_opened id) f = elim (Bool-cases (contains (item_ids l.items) id)) [
    | inl there ↦ rw there (record {
      rows = h.rows;
      chosen = record { distinct = h.chosen.distinct; ticked = h.chosen.ticked; selected = there };
    })
    | inr missing ↦ rw missing h
  ]
  touch-IsClean (key plain confirmed k) f = on_key-IsClean plain confirmed k
  touch-IsClean (key_answered id answer) f = key_deleted-IsClean id answer

touch_all-IsClean :
    (touches : List Touch) (l : Listing)
    → All IsFair touches
    → IsClean l
    → IsClean (touch_all l touches)
unfolding touch_all
touch_all-IsClean [] l f h = h
touch_all-IsClean (t ∷ touches) l f h =
    touch_all-IsClean touches (touch l t) f.1 (touch-IsClean l h t f.0)

-- From a clean list, after any sequence of loads, ticks, keys, openings and answers to the delete
-- key, where the service lists each document once: what is ticked is listed and ticked once, and
-- the selected document is listed.
pub touch_all-IsChosen :
    (touches : List Touch) (l : Listing)
    → All IsFair touches
    → IsClean l
    → IsChosen (touch_all l touches)
touch_all-IsChosen touches l f h = (touch_all-IsClean touches l f h).chosen
