-- ===== src/Sorting.antt =====
-- `Array.prototype.sort` with a comparison function, on short arrays: each element in turn is
-- inserted in front of the first one that the comparison puts behind it.
pub mod Keys
use mathlib.Core.List.{Perm, perm_middle}
use mathlib.Core.List.Perm
use clip_to_doc_archive.Prelude.{
  append_assoc, sym, ◌∙◌, subst, ◌≡◌, refl, ap, inl, inr, Bool, true, false, List, [], ◌∷◌, ◌++◌,
  arith, if◌then◌else◌, Bool-cases, All, append-nil,
}

module _ {ℓ} {A : Type ℓ} (before : A → A → Bool) where
  unfoldable pub insert_by : A → List A → List A
  insert_by x [] = x ∷ []
  insert_by x (y ∷ ys) = if before x y then x ∷ y ∷ ys else y ∷ insert_by x ys

  unfoldable pub sort_from : List A → List A → List A
  unfolding insert_by
  sort_from sorted [] = sorted
  sort_from sorted (x ∷ xs) = sort_from (insert_by x sorted) xs

  abbrev pub sort_by : List A → List A
  sort_by = sort_from []

  insert_by-perm : (x : A) (l : List A) → Perm (insert_by x l) (x ∷ l)
  unfolding insert_by
  insert_by-perm x [] = Perm.refl (x ∷ [])
  insert_by-perm x (y ∷ ys) = elim (Bool-cases (before x y)) [
    | inl here ↦ rw here (Perm.refl (x ∷ y ∷ ys))
    | inr later ↦ rw later (Perm.trans (Perm.cons y (insert_by-perm x ys)) (Perm.swap x y ys))
  ]

  sort_from-perm : (sorted l : List A) → Perm (sort_from sorted l) (l ++ sorted)
  unfolding sort_from
  sort_from-perm sorted [] = Perm.refl sorted
  sort_from-perm sorted (x ∷ xs) =
      Perm.trans (sort_from-perm (insert_by x sorted) xs)
        (Perm.trans (Perm.append_left xs (insert_by-perm x sorted)) (perm_middle xs sorted))

  -- Sorting keeps the elements.
  pub sort_by-perm : (l : List A) → Perm (sort_by l) l
  sort_by-perm l = subst (Perm (sort_by l)) (append-nil l) (sort_from-perm [] l)

  -- Every element may stand before each one behind it.
  abbrev pub IsOrdered : List A → Type ℓ
  IsOrdered [] = Unit
  IsOrdered (x ∷ xs) = All (λ y. before x y ≡ true) xs × IsOrdered xs

  -- No element may stand in front of one before it.
  abbrev pub IsStrict : List A → Type ℓ
  IsStrict [] = Unit
  IsStrict (x ∷ xs) = All (λ y. before y x ≡ false) xs × IsStrict xs

  insert_by_end : (x : A) (l xs : List A) → IsStrict (l ++ x ∷ xs) → insert_by x l ≡ l ++ x ∷ []
  unfolding insert_by
  insert_by_end x [] xs h = refl
  insert_by_end x (y ∷ l) xs h = rw (at_middle l h.0) (ap (◌∷◌ y) (insert_by_end x l xs h.1))
    where
      at_middle : (m : List A) → All (λ z. before z y ≡ false) (m ++ x ∷ xs) → before x y ≡ false
      at_middle [] k = k.0
      at_middle (z ∷ m) k = at_middle m k.1

  sort_from_of_IsStrict :
      (sorted l : List A) → IsStrict (sorted ++ l) → sort_from sorted l ≡ sorted ++ l
  unfolding sort_from
  sort_from_of_IsStrict sorted [] h = sym (append-nil sorted)
  sort_from_of_IsStrict sorted (x ∷ xs) h =
      ap (λ s. sort_from s xs) (insert_by_end x sorted xs h)
      ∙ sort_from_of_IsStrict (sorted ++ x ∷ []) xs
          (subst IsStrict (sym (append_assoc sorted (x ∷ []) xs)) h)
      ∙ append_assoc sorted (x ∷ []) xs

  -- A list in strict order stays as it is.
  pub sort_by_of_IsStrict : (l : List A) → IsStrict l → sort_by l ≡ l
  sort_by_of_IsStrict l h = sort_from_of_IsStrict [] l h

  -- The comparison is a total preorder.
  pub record IsTotal : Type ℓ where
    pub chain : (a b c : A) → before a b ≡ true → before b c ≡ true → before a c ≡ true
    pub either : (a b : A) → before a b ≡ false → before b a ≡ true

  module _ (t : IsTotal) where
    All-chain :
        (x y : A) (l : List A)
        → before x y ≡ true
        → All (λ z. before y z ≡ true) l
        → All (λ z. before x z ≡ true) l
    All-chain x y [] h k = tt
    All-chain x y (z ∷ l) h k = (t.chain x y z h k.0, All-chain x y l h k.1)

    All-insert_by :
        (y x : A) (l : List A)
        → before y x ≡ true
        → All (λ z. before y z ≡ true) l
        → All (λ z. before y z ≡ true) (insert_by x l)
    unfolding insert_by
    All-insert_by y x [] h k = (h, tt)
    All-insert_by y x (z ∷ l) h k = ground (arith, All-insert_by y x l h k.1)

    insert_by-IsOrdered : (x : A) (l : List A) → IsOrdered l → IsOrdered (insert_by x l)
    unfolding insert_by
    insert_by-IsOrdered x [] o = (tt, tt)
    insert_by-IsOrdered x (y ∷ ys) o = elim (Bool-cases (before x y)) [
      | inl here ↦ rw here ((here, All-chain x y ys here o.0), o)
      | inr later ↦
          rw later (All-insert_by y x ys (t.either x y later) o.0, insert_by-IsOrdered x ys o.1)
    ]

    sort_from-IsOrdered : (sorted l : List A) → IsOrdered sorted → IsOrdered (sort_from sorted l)
    unfolding sort_from
    sort_from-IsOrdered sorted [] o = o
    sort_from-IsOrdered sorted (x ∷ xs) o =
        sort_from-IsOrdered (insert_by x sorted) xs (insert_by-IsOrdered x sorted o)

    pub sort_by-IsOrdered : (l : List A) → IsOrdered (sort_by l)
    sort_by-IsOrdered l = sort_from-IsOrdered [] l tt

-- What holds of every element still holds after sorting.
module _ {ℓ κ} {A : Type ℓ} (before : A → A → Bool) (P : A → Type κ) where
  every-insert_by : (x : A) (l : List A) → P x → All P l → All P (insert_by before x l)
  unfolding insert_by
  every-insert_by x [] h k = (h, tt)
  every-insert_by x (y ∷ ys) h k = elim (Bool-cases (before x y)) [
    | inl here ↦ rw here (h, k)
    | inr later ↦ rw later (k.0, every-insert_by x ys h k.1)
  ]

  every-sort_from : (sorted l : List A) → All P sorted → All P l → All P (sort_from before sorted l)
  unfolding sort_from
  every-sort_from sorted [] h k = h
  every-sort_from sorted (x ∷ xs) h k =
      every-sort_from (insert_by before x sorted) xs (every-insert_by x sorted k.0 h) k.1

  pub All-sort_by : (l : List A) → All P l → All P (sort_by before l)
  All-sort_by l k = every-sort_from [] l tt k
