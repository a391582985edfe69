-- ===== src/Archive/Listing/Chosen.antt =====
-- The documents that are ticked or selected, and those that are listed
-- (components/archive/ArchiveWorkspace.tsx).
use clip_to_doc_archive.Archive.Listing.{
  Listing, ApiItem, to_item, item_ids, docs_loaded, selected_if_listed, toggle_doc_selection,
  toggle_select_all_on_page,
}
use clip_to_doc_archive.Archive.Listing.Keys.{Key, on_key_down, key_deleted}
use clip_to_doc_archive.Prelude.{
  subst, Distinct-keep_if, ℕ, zero, suc, ◌≡◌, ◌⊎◌, inl, inr, Bool, true, Option, none, some, List,
  [], ◌∷◌, map, arith, if◌then◌else◌, Bool-cases, Option-cases, nat_eq, list_eq, keep_if, All,
  contains, Distinct, contains_self, get_elem?,
}
use clip_to_doc_archive.Text.{Text}

abbrev pub IsIn : List Text → Option Text → Type 0
IsIn ids none = Unit
IsIn ids (some id) = contains ids id ≡ true

-- What is ticked is listed, nothing is ticked twice, and the selected document is listed.
pub record IsChosen (l : Listing) : Type 0 where
  pub distinct : Distinct l.bulk_selected
  pub ticked : All (λ id. contains (item_ids l.items) id ≡ true) l.bulk_selected
  pub selected : IsIn (item_ids l.items) l.selected_doc_id

-- What happens to a list between two bulk actions.
pub data Touch : Type 0 where
  loaded : Text ⊎ (List ApiItem × ℕ) → Touch
  ticked : (id : Text) → (checked : Bool) → Touch
  all_ticked : (checked : Bool) → Touch
  cleared : Touch
  row_opened : (id : Text) → Touch
  key : (plain confirmed : Bool) → Key → Touch
  key_answered : (id : Text) → Text ⊎ Unit {0} → Touch

-- The rows that can be ticked and opened are the listed ones.
unfoldable pub touch : Listing → Touch → Listing
unfolding docs_loaded toggle_doc_selection toggle_select_all_on_page on_key_down key_deleted
touch l (loaded answer) = docs_loaded answer l
touch l (ticked id checked) =
    if contains (item_ids l.items) id then toggle_doc_selection id checked l else l
touch l (all_ticked checked) = toggle_select_all_on_page checked l
touch l cleared = record l { bulk_selected = [] }
touch l (row_opened id) =
    if contains (item_ids l.items) id
    then record l { selected_doc_id = some id; is_modal_open = true }
    else l
touch l (key plain confirmed k) = (on_key_down plain confirmed k l).0
touch l (key_answered id answer) = key_deleted id answer l

unfoldable pub touch_all : Listing → List Touch → Listing
unfolding touch
touch_all l [] = l
touch_all l (t ∷ touches) = touch_all (touch l t) touches

-- The service lists each document once, and the list at hand has each once.
abbrev pub IsFair : Touch → Type 0
IsFair (loaded (inr (answer, total))) = Distinct (item_ids (map to_item answer))
IsFair _ = Unit

pub record IsClean (l : Listing) : Type 0 where
  pub rows : Distinct (item_ids l.items)
  pub chosen : IsChosen l

pub keep_if-listed :
    (p : Text → Bool) (P : Text → Type 0) (ids : List Text) → All P ids → All P (keep_if p ids)
keep_if-listed p P [] h = tt
keep_if-listed p P (id ∷ ids) h = elim (Bool-cases (p id)) [
  | inl kept ↦ rw kept (h.0, keep_if-listed p P ids h.1)
  | inr gone ↦ rw gone (keep_if-listed p P ids h.1)
]

keep_if-passes : (p : Text → Bool) (ids : List Text) → All (λ id. p id ≡ true) (keep_if p ids)
keep_if-passes p [] = tt
keep_if-passes p (id ∷ ids) = elim (Bool-cases (p id)) [
  | inl kept ↦ rw kept (kept, keep_if-passes p ids)
  | inr gone ↦ rw gone (keep_if-passes p ids)
]

selected_if_listed-IsIn :
    (ids : List Text) (selected : Option Text) → IsIn ids (selected_if_listed ids selected)
selected_if_listed-IsIn ids none = tt
selected_if_listed-IsIn ids (some id) = elim (Bool-cases (contains ids id)) [
  | inl there ↦ rw there there
  | inr missing ↦ rw missing tt
]

pub get_elem?-IsIn : (ids : List Text) (i : ℕ) → IsIn ids (get_elem? ids i)
get_elem?-IsIn [] i = tt
get_elem?-IsIn (x ∷ ids) zero = contains_self x ids
get_elem?-IsIn (x ∷ ids) (suc i) = elim (Option-cases (get_elem? ids i)) [
  | inl past ↦ rw past tt
  | inr (id, at) ↦
      let there : contains ids id ≡ true = subst (IsIn ids) at (get_elem?-IsIn ids i) in
      rw at (ground (arith, there))
]

pub loaded-IsClean :
    (answer : Text ⊎ (List ApiItem × ℕ)) (l : Listing)
    → IsFair (loaded answer)
    → IsClean l
    → IsClean (docs_loaded answer l)
unfolding docs_loaded
loaded-IsClean (inr (answer, total)) l f h = record {
  rows = f;
  chosen = record {
    distinct = Distinct-keep_if _ l.bulk_selected h.chosen.distinct;
    ticked = keep_if-passes _ l.bulk_selected;
    selected = selected_if_listed-IsIn _ l.selected_doc_id;
  };
}
loaded-IsClean (inl message) l f h = record {
  rows = tt;
  chosen = record { distinct = tt; ticked = tt; selected = tt };
}
