-- ===== src/Sorting/Keys.antt =====
-- Sorting records whose keys differ.
use clip_to_doc_archive.Sorting.{insert_by, sort_from, sort_by}
use clip_to_doc_archive.Prelude.{
  ◌≡◌, refl, ap, ◌∙◌, inl, inr, Bool, false, Option, none, some, List, [], ◌∷◌, arith,
  if◌then◌else◌, Bool-cases, Eq, ◌==◌, nat_eq, list_eq, All,
}

module _ {A K : Type 0} ⦃e : Eq K⦄ (key : A → K) where
  abbrev pub find_key : K → List A → Option A
  find_key j [] = none
  find_key j (x ∷ xs) = if key x == j then some x else find_key j xs

  -- No record has the key.
  abbrev pub IsFree : List A → K → Type 0
  IsFree l k = All (λ x. (key x == k) ≡ false) l

  abbrev pub KeysDiffer : List A → Type 0
  KeysDiffer [] = Unit
  KeysDiffer (x ∷ xs) = IsFree xs (key x) × KeysDiffer xs

  find_of_IsFree : (l : List A) (j : K) → IsFree l j → find_key j l ≡ none
  find_of_IsFree [] j h = refl
  find_of_IsFree (x ∷ xs) j h = rw h.0 (find_of_IsFree xs j h.1)

  pub IsFree-of_find : (l : List A) (j : K) → find_key j l ≡ none → IsFree l j
  IsFree-of_find [] j h = tt
  IsFree-of_find (x ∷ xs) j h = ground (arith, IsFree-of_find xs j)

  beq_sym : (a b : K) → (a == b) ≡ false → (b == a) ≡ false
  beq_sym a b h = ground (arith, e.beq_iff a b, e.beq_iff b a)

  module _ (before : A → A → Bool) where
    IsFree-insert_by :
        (x : A) (l : List A) (k : K)
        → (key x == k) ≡ false
        → IsFree l k
        → IsFree (insert_by before x l) k
    unfolding insert_by
    IsFree-insert_by x [] k h f = (h, tt)
    IsFree-insert_by x (y ∷ ys) k h f = ground (arith, IsFree-insert_by x ys k h f.1)

    KeysDiffer-insert_by :
        (x : A) (l : List A) → IsFree l (key x) → KeysDiffer l → KeysDiffer (insert_by before x l)
    unfolding insert_by
    KeysDiffer-insert_by x [] f d = (tt, tt)
    KeysDiffer-insert_by x (y ∷ ys) f d = elim (Bool-cases (before x y)) [
      | inl here ↦ rw here (f, d)
      | inr later ↦ rw later (
        IsFree-insert_by x ys (key y) (beq_sym (key y) (key x) f.0) d.0,
        KeysDiffer-insert_by x ys f.1 d.1,
      )
    ]

    find-insert_by :
        (x : A) (l : List A) (j : K)
        → IsFree l (key x)
        → find_key j (insert_by before x l) ≡ (if key x == j then some x else find_key j l)
    unfolding insert_by
    find-insert_by x [] j f = refl
    find-insert_by x (y ∷ ys) j f = ground (
      arith,
      find-insert_by x ys j f.1,
      e.beq_iff (key x) j,
      e.beq_iff (key y) j,
      e.beq_iff (key y) (key x),
    )

    -- What is still to be inserted has other keys than what is sorted.
    abbrev Apart : List A → List A → Type 0
    Apart sorted l = All (λ x. IsFree sorted (key x)) l

    Apart-insert_by :
        (x : A) (sorted l : List A)
        → IsFree l (key x)
        → Apart sorted l
        → Apart (insert_by before x sorted) l
    Apart-insert_by x sorted [] f a = tt
    Apart-insert_by x sorted (y ∷ ys) f a = (
      IsFree-insert_by x sorted (key y) (beq_sym (key y) (key x) f.0) a.0,
      Apart-insert_by x sorted ys f.1 a.1,
    )

    KeysDiffer-sort_from :
        (sorted l : List A)
        → KeysDiffer sorted
        → KeysDiffer l
        → Apart sorted l
        → KeysDiffer (sort_from before sorted l)
    unfolding sort_from
    KeysDiffer-sort_from sorted [] d k a = d
    KeysDiffer-sort_from sorted (x ∷ xs) d k a =
        KeysDiffer-sort_from (insert_by before x sorted) xs (KeysDiffer-insert_by x sorted a.0 d)
          k.1 (Apart-insert_by x sorted xs k.0 a.1)

    abbrev or_else : Option A → Option A → Option A
    or_else none o = o
    or_else (some x) o = some x

    find-sort_from :
        (sorted l : List A) (j : K)
        → KeysDiffer l
        → Apart sorted l
        → find_key j (sort_from before sorted l) ≡ or_else (find_key j sorted) (find_key j l)
    unfolding sort_from
    find-sort_from sorted [] j k a = ground arith
    find-sort_from sorted (x ∷ xs) j k a =
        find-sort_from (insert_by before x sorted) xs j k.1 (Apart-insert_by x sorted xs k.0 a.1)
        ∙ ap (λ o. or_else o (find_key j xs)) (find-insert_by x sorted j a.0)
        ∙ ground (arith, e.beq_iff (key x) j, find_of_IsFree sorted (key x) a.0)

    Apart-nil : (l : List A) → Apart [] l
    Apart-nil [] = tt
    Apart-nil (x ∷ xs) = (tt, Apart-nil xs)

    pub KeysDiffer-sort_by : (l : List A) → KeysDiffer l → KeysDiffer (sort_by before l)
    KeysDiffer-sort_by l k = KeysDiffer-sort_from [] l tt k (Apart-nil l)

    pub find-sort_by :
        (l : List A) (j : K) → KeysDiffer l → find_key j (sort_by before l) ≡ find_key j l
    find-sort_by l j k = find-sort_from [] l j k (Apart-nil l)
