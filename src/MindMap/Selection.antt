-- ===== src/MindMap/Selection.antt =====
-- Laws of the choice of nodes (`prioritizeSelected` in components/mindmap/MindMapWorkspace.tsx).
use clip_to_doc_archive.MindMap.{
  find_index, remove_at, put_first, slice_before, prioritize_selected,
}
use clip_to_doc_archive.Prelude.{
  ℕ, zero, suc, ◌≤◌, ◌<◌, ◌≡◌, refl, inl, inr, Bool, true, false, Option, none, some, List, [], ◌∷◌,
  arith, ltb, leb, Bool-cases, Option-cases, ◌==◌, nat_eq, list_eq, length, take, is_empty, any,
  length-take, get_elem?,
}
use clip_to_doc_archive.Text.{Text}

module _ {A : Type 0} (get_key : A → Text) where
  -- Some item of the list has the key.
  abbrev pub shows : Text → List A → Bool
  shows key = any (λ x. get_key x == key)

  find_index_cases :
      (key : Text) (items : List A)
      → shows key items ≡ true
      → (i : ℕ) × (x : A) × (find_index get_key key items ≡ some i)
        × (get_elem? items i ≡ some x)
        × ((get_key x == key) ≡ true)
  unfolding find_index
  find_index_cases key [] h = cc
  find_index_cases key (x ∷ xs) h = elim (Bool-cases (get_key x == key)) [
    | inl here ↦ (0, x, rw here, refl, here)
    | inr later ↦
        let (i, y, found, at, k) = find_index_cases key xs (rw later at h) in
        (suc i, y, rw (later, found), at, k)
  ]

  shows-take :
      (n i : ℕ) (key : Text) (items : List A) (x : A)
      → i < n
      → get_elem? items i ≡ some x
      → (get_key x == key) ≡ true
      → shows key (take n items) ≡ true
  shows-take zero i key items x h g k = absurd (omega arith)
  shows-take (suc n) i key [] x h g k = cc
  shows-take (suc n) zero key (y ∷ ys) x h g k = ground arith
  shows-take (suc n) (suc i) key (y ∷ ys) x h g k = ground (arith, shows-take n i key ys x)

  length-put_first :
      (o : Option A) (n : ℕ) (rest : List A)
      → 0 < n
      → length (put_first o (slice_before n rest)) ≤ n
  length-put_first o zero rest h = absurd (omega arith)
  length-put_first none (suc n) rest h = omega (arith, length-take n rest)
  length-put_first (some x) (suc n) rest h = omega (arith, length-take n rest)

  -- At most the given number of items is shown, with or without a selected one, where the number
  -- is positive.
  length-prioritize_selected :
      (items : List A) (selected : Option Text) (max_count : ℕ)
      → 0 < max_count
      → length (prioritize_selected get_key items selected max_count) ≤ max_count
  unfolding prioritize_selected
  length-prioritize_selected items none n h = ground (arith, length-take n items)
  length-prioritize_selected items (some key) n h =
      elim (Option-cases (find_index get_key key items)) [
        | inl missing ↦ ground (arith, length-take n items)
        | inr (i, found) ↦
            ground (
              arith,
              length-take n items,
              length-put_first (get_elem? items i) n (remove_at i items),
            )
      ]

  -- An item with the selected key, which is not empty, is among the items shown if it is in the
  -- list, however long the list is, where at least one item may be shown.
  shows-prioritize_selected :
      (items : List A) (key : Text) (max_count : ℕ)
      → 0 < max_count
      → is_empty key ≡ false
      → shows key items ≡ true
      → shows key (prioritize_selected get_key items (some key) max_count) ≡ true
  unfolding prioritize_selected
  shows-prioritize_selected items key n h filled there = elim (Bool-cases (leb (length items) n)) [
    | inl few ↦ rw few there
    | inr many ↦
        let (i, x, found, at, k) = find_index_cases key items there in
        rw (many, filled, found)
          (elim (Bool-cases (ltb i n)) [
            | inl near ↦ rw near (shows-take n i key items x (ground arith) at k)
            | inr far ↦ rw (far, at) (rw k)
          ])
  ]
