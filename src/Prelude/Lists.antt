-- ===== src/Prelude/Lists.antt =====
-- Lists measured by native numbers, membership by a Boolean test, and predicates by recursion.
use Prim.Native.Nat.{ℕ, zero, suc, ◌+◌, ◌-◌, ◌≤◌, ◌<◌, min}
use mathlib.Core.Path.{◌≡◌, refl, ap, ◌∙◌, sym, subst}
use mathlib.Core.Option.{Option, none, some}
use mathlib.Core.Logic.{inl, inr}
use mathlib.Core.Bool.{Bool, true, false, ◌||◌, ◌&&◌}
use mathlib.Core.List.{List, [], ◌∷◌, ◌++◌}
use native.Mathlib.Omega.{arith}
use clip_to_doc_archive.Prelude.Tests.{Eq, ◌==◌, if◌then◌else◌, Bool-cases}

module _ {ℓ} {A : Type ℓ} where
  abbrev pub length : List A → ℕ
  length [] = 0
  length (x ∷ xs) = suc (length xs)

  abbrev pub take : ℕ → List A → List A
  take zero xs = []
  take (suc n) [] = []
  take (suc n) (x ∷ xs) = x ∷ take n xs

  abbrev pub drop : ℕ → List A → List A
  drop zero xs = xs
  drop (suc n) [] = []
  drop (suc n) (x ∷ xs) = drop n xs

  abbrev pub is_empty : List A → Bool
  is_empty [] = true
  is_empty (_ ∷ _) = false

  -- `l.slice(from, to)` for indices that are not negative.
  abbrev pub slice : ℕ → ℕ → List A → List A
  slice from to l = take (to - from) (drop from l)

  -- `Array.prototype.filter`, by a Boolean test.
  abbrev pub keep_if : (A → Bool) → List A → List A
  keep_if p [] = []
  keep_if p (x ∷ xs) = if p x then x ∷ keep_if p xs else keep_if p xs

  -- `Array.prototype.some`
  abbrev pub any : (A → Bool) → List A → Bool
  any p [] = false
  any p (x ∷ xs) = p x || any p xs

  -- `Array.prototype.every`
  abbrev pub all : (A → Bool) → List A → Bool
  all p [] = true
  all p (x ∷ xs) = p x && all p xs

  pub length-append : (xs ys : List A) → length (xs ++ ys) ≡ length xs + length ys
  length-append [] ys = omega arith
  length-append (x ∷ xs) ys = omega (arith, length-append xs ys)

  pub length-take : (n : ℕ) (xs : List A) → length (take n xs) ≡ min n (length xs)
  length-take zero xs = omega arith
  length-take (suc n) [] = omega arith
  length-take (suc n) (x ∷ xs) = omega (arith, length-take n xs)

  pub length-drop : (n : ℕ) (xs : List A) → length (drop n xs) ≡ length xs - n
  length-drop zero xs = omega arith
  length-drop (suc n) [] = omega arith
  length-drop (suc n) (x ∷ xs) = omega (arith, length-drop n xs)

  pub take-take : (n : ℕ) (xs : List A) → take n (take n xs) ≡ take n xs
  take-take zero xs = refl
  take-take (suc n) [] = refl
  take-take (suc n) (x ∷ xs) = ap (◌∷◌ x) (take-take n xs)

  pub take_all : (n : ℕ) (xs : List A) → length xs ≤ n → take n xs ≡ xs
  take_all zero [] h = refl
  take_all zero (x ∷ xs) h = absurd (omega arith)
  take_all (suc n) [] h = refl
  take_all (suc n) (x ∷ xs) h = ap (◌∷◌ x) (take_all n xs (omega arith))

abbrev pub All {ℓ κ} : {A : Type ℓ} → (A → Type κ) → List A → Type κ
All P [] = Unit
All P (x ∷ xs) = P x × All P xs

module _ {ℓ κ} {A : Type ℓ} (P : A → Type κ) where
  pub All-append : (xs ys : List A) → All P xs → All P ys → All P (xs ++ ys)
  All-append [] ys hx hy = hy
  All-append (x ∷ xs) ys hx hy = (hx.0, All-append xs ys hx.1 hy)

  pub All-take : (n : ℕ) (xs : List A) → All P xs → All P (take n xs)
  All-take zero xs h = tt
  All-take (suc n) [] h = tt
  All-take (suc n) (x ∷ xs) h = (h.0, All-take n xs h.1)

module _ {ℓ} {A : Type ℓ} ⦃e : Eq A⦄ where
  -- `Array.prototype.includes`, and `Set.prototype.has` on the list of what was added.
  abbrev pub contains : List A → A → Bool
  contains [] a = false
  contains (x ∷ xs) a = a == x || contains xs a

  -- No value stands twice.
  abbrev pub Distinct : List A → Type 0
  Distinct [] = Unit
  Distinct (x ∷ xs) = (contains xs x ≡ false) × Distinct xs

  pub contains-append :
      (xs ys : List A) (a : A) → contains (xs ++ ys) a ≡ contains xs a || contains ys a
  contains-append [] ys a = refl
  contains-append (x ∷ xs) ys a = ground (arith, contains-append xs ys a)

  pub contains_self : (a : A) (xs : List A) → contains (a ∷ xs) a ≡ true
  contains_self a xs = ground (arith, e.beq_iff a a)

  -- What holds of each value that the list contains holds of all of its values.
  pub All-contains {κ} :
      (P : A → Type κ) (xs : List A) → ((x : A) → contains xs x ≡ true → P x) → All P xs
  All-contains P [] f = tt
  All-contains P (x ∷ xs) f =
      (f x (contains_self x xs), All-contains P xs (λ y h. f y (ground (arith, h))))

  pub All-lookup {κ} :
      (P : A → Type κ) (xs : List A) (a : A) → All P xs → contains xs a ≡ true → P a
  All-lookup P [] a h k = cc
  All-lookup P (x ∷ xs) a h k = elim (Bool-cases (a == x)) [
    | inl here ↦ subst P (sym ((e.beq_iff a x).0 here)) h.0
    | inr there ↦ All-lookup P xs a h.1 (ground arith)
  ]

  pub contains-keep_if :
      (p : A → Bool) (xs : List A) (a : A) → contains (keep_if p xs) a ≡ contains xs a && p a
  contains-keep_if p [] a = refl
  contains-keep_if p (x ∷ xs) a = elim (Bool-cases (a == x)) [
    | inl here ↦
        let same : a ≡ x = (e.beq_iff a x).0 here in
        elim (Bool-cases (p x)) [
          | inl passes ↦ let k : p a ≡ true = ap p same ∙ passes in rw (passes, here, k) refl
          | inr fails ↦
              let k : p a ≡ false = ap p same ∙ fails in
              rw (fails, contains-keep_if p xs a, k) (ground arith)
        ]
    | inr there ↦ elim (Bool-cases (p x)) [
      | inl passes ↦ rw (passes, there, contains-keep_if p xs a) refl
      | inr fails ↦ rw (fails, there, contains-keep_if p xs a) refl
    ]
  ]

  pub Distinct-keep_if : (p : A → Bool) (xs : List A) → Distinct xs → Distinct (keep_if p xs)
  Distinct-keep_if p [] h = tt
  Distinct-keep_if p (x ∷ xs) h = elim (Bool-cases (p x)) [
    | inl passes ↦ rw passes (rw (contains-keep_if p xs x, h.0) refl, Distinct-keep_if p xs h.1)
    | inr fails ↦ rw fails (Distinct-keep_if p xs h.1)
  ]

  -- A value that is not there can be added at the end.
  pub Distinct-concat :
      (xs : List A) (a : A) → Distinct xs → contains xs a ≡ false → Distinct (xs ++ a ∷ [])
  Distinct-concat [] a h k = (refl, tt)
  Distinct-concat (x ∷ xs) a h k = (
    ground (arith, contains-append xs (a ∷ []) x, e.beq_iff a x, e.beq_iff x a),
    Distinct-concat xs a h.1 (ground arith),
  )

  -- In a list without repetition a value does not stand before itself.
  pub contains_of_Distinct-append :
      (xs : List A) (a : A) (ys : List A) → Distinct (xs ++ a ∷ ys) → contains xs a ≡ false
  contains_of_Distinct-append [] a ys h = refl
  contains_of_Distinct-append (x ∷ xs) a ys h = ground (
    arith,
    contains_of_Distinct-append xs a ys h.1,
    contains-append xs (a ∷ ys) x,
    e.beq_iff a x,
    e.beq_iff x a,
  )

module _ {ℓ} {A : Type ℓ} where
  abbrev pub get_elem? : List A → ℕ → Option A
  get_elem? [] i = none
  get_elem? (x ∷ xs) zero = some x
  get_elem? (x ∷ xs) (suc i) = get_elem? xs i

  pub get_elem?-drop : (n i : ℕ) (xs : List A) → get_elem? (drop n xs) i ≡ get_elem? xs (n + i)
  get_elem?-drop zero i xs = let e : i ≡ 0 + i = omega arith in ap (get_elem? xs) e
  get_elem?-drop (suc n) i [] = refl
  get_elem?-drop (suc n) i (x ∷ xs) =
      let e : suc (n + i) ≡ suc n + i = omega arith in
      get_elem?-drop n i xs ∙ ap (get_elem? (x ∷ xs)) e

  pub get_elem?-take : (n i : ℕ) (xs : List A) → i < n → get_elem? (take n xs) i ≡ get_elem? xs i
  get_elem?-take zero i xs h = absurd (omega arith)
  get_elem?-take (suc n) i [] h = refl
  get_elem?-take (suc n) zero (x ∷ xs) h = refl
  get_elem?-take (suc n) (suc i) (x ∷ xs) h = get_elem?-take n i xs (omega arith)

-- `l.map(f).filter(Boolean)`
abbrev pub map_filled : {A B : Type 0} → (A → Option B) → List A → List B
map_filled f [] = []
map_filled f (row ∷ rows) = elim (f row) [
  | none ↦ map_filled f rows
  | some v ↦ v ∷ map_filled f rows
]
