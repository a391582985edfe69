-- ===== src/MindMap/Placement/Least.antt =====
-- How well the mind map's nodes are placed (components/mindmap/MindMapWorkspace.tsx).
use clip_to_doc_archive.MindMap.Placement.{
  angle_numbers, Search, fresh, below_best, is_some, count_at, keep_best, try_angles, try_rings,
  final_point, Geometry, place, place_candidates,
}
use clip_to_doc_archive.Prelude.{
  subst, ℕ, zero, suc, ◌+◌, ◌≤◌, ◌<◌, ◌≡◌, refl, sym, ap, ◌∙◌, inl, inr, Bool, true, false, Option,
  none, some, List, [], ◌∷◌, ◌++◌, arith, nat_beq_iff, Bool-cases, Option-cases, ◌==◌, nat_eq,
  list_eq, contains,
}

-- The overlaps of what is found so far: none where a spot is free, and more than `n` where nothing
-- is found.
abbrev pub score : (placed : Bool) → Option ℕ → ℕ → ℕ
score true best n = 0
score false none n = suc n
score false (some m) n = m

-- The search has found a spot with at most `n` overlaps.
abbrev pub Within : {P : Type 0} → ℕ → Search P → Type 0
Within n s = score (is_some s.placed_point) s.best_overlap n ≤ n

module _ {P B : Type 0} (bounds : P → B) (overlaps : B → B → Bool) (occupied : List B) where
  abbrev count : P → ℕ
  count p = count_at bounds overlaps occupied p

  abbrev IsFree : Option P → Type 0
  IsFree none = Unit
  IsFree (some p) = count p ≡ 0

  abbrev overlap_of : Option P → Option ℕ
  overlap_of none = none
  overlap_of (some p) = some (count p)

  -- What the search holds is true of the spots: a placed one is free, the best has its overlaps.
  record IsHonest (s : Search P) : Type 0 where
    placed : IsFree s.placed_point
    best : s.best_overlap ≡ overlap_of s.best_point

  keep_best-IsHonest :
      (p : P) (s : Search P) → IsHonest s → IsHonest (keep_best bounds overlaps occupied p s)
  keep_best-IsHonest p s h = elim (Bool-cases (below_best (count p) s.best_overlap)) [
    | inl better ↦ rw better (record { placed = h.placed; best = refl })
    | inr worse ↦ rw worse h
  ]

  keep_best-Within :
      (n : ℕ) (p : P) (s : Search P)
      → Within n s
      → Within n (keep_best bounds overlaps occupied p s)
  keep_best-Within n p s h = ground arith

  kept-Within : (p : P) (s : Search P) → Within (count p) (keep_best bounds overlaps occupied p s)
  kept-Within p s = ground arith

  -- A free spot is as good as any.
  placed-Within : {n : ℕ} (s : Search P) → is_some s.placed_point ≡ true → Within n s
  placed-Within s h = rw h (omega arith)

  -- What the search ends with has as few overlaps as what it has found.
  final-count :
      (n : ℕ) (home : P) (s : Search P) → IsHonest s → Within n s → count (final_point home s) ≤ n
  final-count n home s h w = elim (Option-cases s.placed_point) [
    | inr (p, placed) ↦
        let free : count p ≡ 0 = subst IsFree placed h.placed in rw placed (omega arith)
    | inl unplaced ↦
        let open' : score false s.best_overlap n ≤ n =
          subst (λ o. score (is_some o) s.best_overlap n ≤ n) unplaced w in
        elim (Option-cases s.best_point) [
          | inr (p, best) ↦
              let e : s.best_overlap ≡ some (count p) = h.best ∙ ap overlap_of best in
              rw (unplaced, best) (subst (λ o. score false o n ≤ n) e open')
          | inl untried ↦
              let e : s.best_overlap ≡ none = h.best ∙ ap overlap_of untried in
              let k : suc n ≤ n = subst (λ o. score false o n ≤ n) e open' in absurd (omega arith)
        ]
  ]

  module _ (spot : ℕ → P) where
    angles-IsHonest :
        (angles : List ℕ) (s : Search P)
        → IsHonest s
        → IsHonest (try_angles bounds overlaps occupied spot angles s)
    unfolding try_angles
    angles-IsHonest [] s h = h
    angles-IsHonest (a ∷ angles) s h =
        let rest =
          angles-IsHonest angles (keep_best bounds overlaps occupied (spot a) s)
            (keep_best-IsHonest (spot a) s h) in
        elim (Bool-cases (count (spot a) == 0)) [
          | inl free ↦
              rw free (record { placed = (nat_beq_iff (count (spot a)) 0).0 free; best = h.best })
          | inr taken ↦ rw taken rest
        ]

    angles-Within :
        (n : ℕ) (angles : List ℕ) (s : Search P)
        → Within n s
        → Within n (try_angles bounds overlaps occupied spot angles s)
    unfolding try_angles
    angles-Within n [] s h = h
    angles-Within n (a ∷ angles) s h =
        let rest =
          angles-Within n angles (keep_best bounds overlaps occupied (spot a) s)
            (keep_best-Within n (spot a) s h) in
        elim (Bool-cases (count (spot a) == 0)) [
          | inl free ↦ rw free (omega arith)
          | inr taken ↦ rw taken rest
        ]

    -- No spot that was tried has fewer overlaps.
    angles_reached :
        (angles : List ℕ) (s : Search P) (a : ℕ)
        → contains angles a ≡ true
        → Within (count (spot a)) (try_angles bounds overlaps occupied spot angles s)
    unfolding try_angles
    angles_reached [] s a h = cc
    angles_reached (b ∷ angles) s a h = elim (Bool-cases (count (spot b) == 0)) [
      | inl free ↦ rw free (omega arith)
      | inr taken ↦ elim (Bool-cases (a == b)) [
        | inl here ↦
            let same : b ≡ a = sym ((nat_beq_iff a b).0 here) in
            rw taken (
              angles-Within (count (spot a)) angles (keep_best bounds overlaps occupied (spot b) s)
                (subst
                  (λ x. Within (count (spot x)) (keep_best bounds overlaps occupied (spot b) s))
                  same (kept-Within (spot b) s)))
        | inr there ↦
            rw taken (
              angles_reached angles (keep_best bounds overlaps occupied (spot b) s) a
                (ground arith))
      ]
    ]

  module _ (spot : ℕ → ℕ → P) where
    abbrev ring_search : ℕ → Search P → Search P
    ring_search ring s = try_angles bounds overlaps occupied (spot ring) angle_numbers s

    rings-IsHonest :
        (left ring : ℕ) (s : Search P)
        → IsHonest s
        → IsHonest (try_rings bounds overlaps occupied spot left ring s)
    unfolding try_rings
    rings-IsHonest zero ring s h = h
    rings-IsHonest (suc left) ring s h =
        let here = angles-IsHonest (spot ring) angle_numbers s h in
        let rest = rings-IsHonest left (suc ring) (ring_search ring s) here in
        elim (Bool-cases (is_some (ring_search ring s).placed_point)) [
          | inl placed ↦ rw placed here
          | inr open' ↦ rw open' rest
        ]

    rings-Within :
        (n left ring : ℕ) (s : Search P)
        → Within n s
        → Within n (try_rings bounds overlaps occupied spot left ring s)
    unfolding try_rings
    rings-Within n zero ring s h = h
    rings-Within n (suc left) ring s h =
        let here = angles-Within (spot ring) n angle_numbers s h in
        let rest = rings-Within n left (suc ring) (ring_search ring s) here in
        elim (Bool-cases (is_some (ring_search ring s).placed_point)) [
          | inl placed ↦ rw placed here
          | inr open' ↦ rw open' rest
        ]

    rings_reached :
        (left ring : ℕ) (s : Search P) (i a : ℕ)
        → i < left
        → contains angle_numbers a ≡ true
        → Within (count (spot (ring + i) a)) (try_rings bounds overlaps occupied spot left ring s)
    unfolding try_rings
    rings_reached zero ring s i a h k = absurd (omega arith)
    rings_reached (suc left) ring s zero a h k =
        let e : ring + 0 ≡ ring = omega arith in
        let here : Within (count (spot (ring + 0) a)) (ring_search ring s) =
          subst (λ r. Within (count (spot r a)) (ring_search ring s)) (sym e)
            (angles_reached (spot ring) angle_numbers s a k) in
        let n = count (spot (ring + 0) a) in
        let later = rings-Within n left (suc ring) (ring_search ring s) here in
        elim (Bool-cases (is_some (ring_search ring s).placed_point)) [
          | inl placed ↦ rw placed here
          | inr open' ↦ rw open' later
        ]
    rings_reached (suc left) ring s (suc i) a h k =
        let e : suc ring + i ≡ ring + suc i = omega arith in
        let later = rings_reached left (suc ring) (ring_search ring s) i a (omega arith) k in
        elim (Bool-cases (is_some (ring_search ring s).placed_point)) [
          | inl placed ↦ rw placed (placed-Within (ring_search ring s) placed)
          | inr open' ↦ rw open' (
              subst
                (λ r.
                  Within (count (spot r a))
                    (try_rings bounds overlaps occupied spot left (suc ring) (ring_search ring s)))
                e later)
        ]

-- The spots of a candidate.
abbrev pub IsSpot : ℕ → ℕ → ℕ → Type 0
IsSpot max_rings ring angle = (ring < max_rings) × (contains angle_numbers angle ≡ true)

module _ {C P B : Type 0} (g : Geometry C P B) where
  place-least :
      (max_rings : ℕ) (c : C) (occupied : List B) (ring angle : ℕ)
      → IsSpot max_rings ring angle
      → count_at (g.bounds c) g.overlaps occupied (place g max_rings c occupied)
        ≤ count_at (g.bounds c) g.overlaps occupied (g.spot c ring angle)
  unfolding place
  place-least max_rings c occupied ring angle s =
      let b = g.bounds c in
      let e : 0 + ring ≡ ring = omega arith in
      let found = try_rings b g.overlaps occupied (g.spot c) max_rings 0 fresh in
      let honest =
        rings-IsHonest b g.overlaps occupied (g.spot c) max_rings 0 fresh
          (record { placed = tt; best = refl }) in
      let reached =
        rings_reached b g.overlaps occupied (g.spot c) max_rings 0 fresh ring angle s.0 s.1 in
      subst
        (λ r.
          count_at b g.overlaps occupied (final_point (g.home c) found)
          ≤ count_at b g.overlaps occupied (g.spot c r angle))
        e
        (final-count b g.overlaps occupied
          (count_at b g.overlaps occupied (g.spot c (0 + ring) angle)) (g.home c) found honest
          reached)

  -- Each point of the list is best for its candidate, given what stands before it.
  abbrev pub ArePlaced : ℕ → (ring angle : ℕ) → List C → List B → List P → Type 0
  ArePlaced max_rings ring angle [] occupied points = points ≡ []
  ArePlaced max_rings ring angle (c ∷ cs) occupied [] = ⊥
  ArePlaced max_rings ring angle (c ∷ cs) occupied (point ∷ points) =
      (count_at (g.bounds c) g.overlaps occupied point
        ≤ count_at (g.bounds c) g.overlaps occupied (g.spot c ring angle))
      × ArePlaced max_rings ring angle cs (occupied ++ g.bounds c point ∷ []) points

  -- Each node of the mind map is put where it overlaps no more of the nodes before it than at any
  -- spot of its rings, in every geometry.
  pub place_candidates-ArePlaced :
      (max_rings ring angle : ℕ) (cs : List C) (occupied : List B)
      → IsSpot max_rings ring angle
      → ArePlaced max_rings ring angle cs occupied (place_candidates g max_rings cs occupied)
  unfolding place_candidates
  place_candidates-ArePlaced max_rings ring angle [] occupied s = refl
  place_candidates-ArePlaced max_rings ring angle (c ∷ cs) occupied s = (
    place-least max_rings c occupied ring angle s,
    place_candidates-ArePlaced max_rings ring angle cs
        (occupied ++ g.bounds c (place g max_rings c occupied) ∷ []) s,
  )
