-- ===== src/Archive/Listing/Keys/Cursor.antt =====
-- The selected document as a place in the list (components/archive/ArchiveWorkspace.tsx).
use mathlib.Core.Option.{some-injective}
use clip_to_doc_archive.Archive.Listing.{Listing, ListItem, item_ids}
use clip_to_doc_archive.Archive.Listing.Keys.{
  Key, arrow_down, arrow_up, find_index, current_index, select_at, on_key_down,
}
use clip_to_doc_archive.Prelude.{
  subst, ℕ, zero, suc, ◌+◌, ◌-◌, ◌<◌, min, ◌≡◌, refl, sym, ap, ◌∙◌, inl, inr, true, false, some,
  List, [], ◌∷◌, arith, Bool-cases, ◌==◌, nat_eq, list_beq_iff, list_eq, length, is_empty, All,
  contains, Distinct, get_elem?,
}
use clip_to_doc_archive.Text.{Text}

pub data Move : Type 0 where
  down up : Move

abbrev pub key_of : Move → Key
key_of down = arrow_down
key_of up = arrow_up

-- A cursor that stops at both ends of a list of `n` rows.
abbrev pub move_to : ℕ → Move → ℕ → ℕ
move_to n down i = min (n - 1) (i + 1)
move_to n up i = i - 1

abbrev pub walk : ℕ → List Move → ℕ → ℕ
walk n [] i = i
walk n (m ∷ moves) i = walk n moves (move_to n m i)

pub press_all : List Move → Listing → Listing
unfolding on_key_down
press_all [] l = l
press_all (m ∷ moves) l = press_all moves (on_key_down true false (key_of m) l).0

-- The rows have distinct identifiers that are not empty.
pub record IsListed (ids : List Text) : Type 0 where
  pub distinct : Distinct ids
  pub named : All (λ id. is_empty id ≡ false) ids

other_than :
    (ids : List Text) (x id : Text)
    → contains ids x ≡ false
    → contains ids id ≡ true
    → (x == id) ≡ false
other_than ids x id new old = elim (Bool-cases (x == id)) [
  | inl same ↦
      let e = ap (contains ids) ((list_beq_iff x id).0 same) in
      let k : false ≡ true = sym new ∙ e ∙ old in cc
  | inr other ↦ other
]

find_index-get_elem? :
    (ids : List Text) (i : ℕ) (id : Text)
    → Distinct ids
    → get_elem? ids i ≡ some id
    → find_index id ids ≡ some i
find_index-get_elem? [] i id d h = cc
find_index-get_elem? (x ∷ ids) zero id d h =
    let same : x ≡ id = some-injective x id h in rw ((list_beq_iff x id).1 same) refl
find_index-get_elem? (x ∷ ids) (suc i) id d h =
    let other = other_than ids x id d.0 (contains_of_get ids i id h) in
    rw (other, find_index-get_elem? ids i id d.1 h) refl
  where
    contains_of_get :
        (ids : List Text) (i : ℕ) (id : Text) → get_elem? ids i ≡ some id → contains ids id ≡ true
    contains_of_get [] i id h = cc
    contains_of_get (x ∷ ids) zero id h = ground (arith, some-injective x id h, list_beq_iff id x)
    contains_of_get (x ∷ ids) (suc i) id h = ground (arith, contains_of_get ids i id h)

get_elem?-lt :
    (ids : List Text) (i : ℕ) → i < length ids → (id : Text) × (get_elem? ids i ≡ some id)
get_elem?-lt [] i h = absurd (omega arith)
get_elem?-lt (x ∷ ids) zero h = (x, refl)
get_elem?-lt (x ∷ ids) (suc i) h = get_elem?-lt ids i (omega arith)

named_at :
    (ids : List Text) (i : ℕ) (id : Text)
    → All (λ x. is_empty x ≡ false) ids
    → get_elem? ids i ≡ some id
    → is_empty id ≡ false
named_at [] i id n h = cc
named_at (x ∷ ids) zero id n h = subst (λ y. is_empty y ≡ false) (some-injective x id h) n.0
named_at (x ∷ ids) (suc i) id n h = named_at ids i id n.1 h

-- The index that the handler finds is the cursor's.
current-get_elem? :
    (ids : List Text) (i : ℕ)
    → IsListed ids
    → i < length ids
    → current_index (get_elem? ids i) ids ≡ some i
current-get_elem? ids i l h =
    let (id, at) = get_elem?-lt ids i h in
    rw (at, named_at ids i id l.named at) (find_index-get_elem? ids i id l.distinct at)

-- The list takes keys, and its selected row is that of the cursor.
pub record IsOpen (i : ℕ) (l : Listing) : Type 0 where
  pub free : l.is_modal_open ≡ false
  pub loaded : l.docs_loading ≡ false
  pub listed : IsListed (item_ids l.items)
  pub within : i < length (item_ids l.items)
  pub at : l.selected_doc_id ≡ get_elem? (item_ids l.items) i

filled : (items : List ListItem) (i : ℕ) → i < length (item_ids items) → is_empty items ≡ false
filled [] i h = absurd (omega arith)
filled (x ∷ items) i h = refl

press-lem :
    (m : Move) (i : ℕ) (l : Listing)
    → IsOpen i l
    → (on_key_down true false (key_of m) l).0
      ≡ select_at (move_to (length (item_ids l.items)) m i) l
unfolding on_key_down
press-lem down i l h =
    rw
      (
        h.free,
        h.loaded,
        filled l.items i h.within,
        h.at,
        current-get_elem? (item_ids l.items) i h.listed h.within,
      )
      refl
press-lem up i l h =
    rw
      (
        h.free,
        h.loaded,
        filled l.items i h.within,
        h.at,
        current-get_elem? (item_ids l.items) i h.listed h.within,
      )
      refl

move-within : (n i : ℕ) (m : Move) → i < n → move_to n m i < n
move-within n i down h = omega arith
move-within n i up h = omega arith

select-IsOpen :
    (m : Move) (i : ℕ) (l : Listing)
    → IsOpen i l
    → IsOpen
        (move_to (length (item_ids l.items)) m i)
        (select_at (move_to (length (item_ids l.items)) m i) l)
select-IsOpen m i l h = record {
  free = h.free;
  loaded = h.loaded;
  listed = h.listed;
  within = move-within (length (item_ids l.items)) i m h.within;
  at = refl;
}

-- In a loaded list of distinct documents with no window open, the arrow keys move the selected
-- document as a cursor of the rows moves that stops at both ends.
pub press_all-walk :
    (moves : List Move) (i : ℕ) (l : Listing)
    → IsOpen i l
    → (press_all moves l).selected_doc_id
      ≡ get_elem? (item_ids l.items) (walk (length (item_ids l.items)) moves i)
unfolding press_all
press_all-walk [] i l h = h.at
press_all-walk (m ∷ moves) i l h =
    ap (λ q. (press_all moves q).selected_doc_id) (press-lem m i l h)
    ∙ press_all-walk moves (move_to (length (item_ids l.items)) m i)
        (select_at (move_to (length (item_ids l.items)) m i) l) (select-IsOpen m i l h)
