-- ===== src/Dashboard/Lanes.antt =====
-- Laws of the lanes of the milestone timeline
-- (components/dashboard/DashboardMilestoneTimeline.tsx).
use mathlib.Core.Option.{some-injective}
use clip_to_doc_archive.Dashboard.Timeline.{
  Milestone, FootprintKind, screen, print, Placed, left_of, required_end_of, find_lane, set_lane,
  layout, build_timeline_layout,
}
use clip_to_doc_archive.Prelude.{
  ℕ, zero, suc, ◌+◌, ◌*◌, ◌≤◌, ◌<◌, ◌≡◌, refl, sym, ap, ◌∙◌, inl, inr, Bool, true, false, not, ◌&&◌,
  ◌||◌, some, List, [], ◌∷◌, ◌++◌, arith, leb, nat_beq, Bool-cases, Option-cases, nat_eq, list_eq,
  length, all, get_elem?,
}

-- Where `later` stands in the lane, it begins at least 1.2 percent behind `end`.
abbrev pub is_apart : (unit lane end : ℕ) → Placed → Bool
is_apart unit lane end later = not (nat_beq lane later.lane) || leb (end + 120 * unit) later.left

-- Each milestone is apart from the ones that are placed after it.
abbrev pub has_room : ℕ → List Placed → Bool
has_room unit [] = true
has_room unit (p ∷ ps) = all (is_apart unit p.lane p.required_end) ps && has_room unit ps

find_lane_lem :
    (unit left : ℕ) (ends : List ℕ) (lane : ℕ)
    → find_lane unit left ends ≡ some lane
    → (end : ℕ) × (get_elem? ends lane ≡ some end) × (end + 120 * unit ≤ left)
find_lane_lem unit left [] lane e = cc
find_lane_lem unit left (end ∷ ends) lane e = elim (Bool-cases (leb (end + 120 * unit) left)) [
  | inl free ↦
      let z : 0 ≡ lane = some-injective 0 lane (rw (free, find_lane) at e) in
      (end, ap (get_elem? (end ∷ ends)) (sym z), ground arith)
  | inr taken ↦ elim (Option-cases (find_lane unit left ends)) [
    | inl missing ↦ cc (rw (taken, missing, find_lane) at e)
    | inr (l, found) ↦
        let z : suc l ≡ lane = some-injective (suc l) lane (rw (taken, found, find_lane) at e) in
        let (end', there, apart) = find_lane_lem unit left ends l found in
        (end', ap (get_elem? (end ∷ ends)) (sym z) ∙ there, apart)
  ]
]

get-append :
    (xs : List ℕ) (y i x : ℕ)
    → get_elem? xs i ≡ some x
    → (get_elem? (xs ++ y ∷ []) i ≡ some x) × (i < length xs)
get-append [] y i x h = cc
get-append (z ∷ xs) y zero x h = (h, omega arith)
get-append (z ∷ xs) y (suc i) x h = let (g, l) = get-append xs y i x h in (g, omega (arith, l))

get-set_lane_same :
    (xs : List ℕ) (i r x : ℕ) → get_elem? xs i ≡ some x → get_elem? (set_lane i r xs) i ≡ some r
get-set_lane_same [] i r x h = cc
get-set_lane_same (z ∷ xs) zero r x h = refl
get-set_lane_same (z ∷ xs) (suc i) r x h = get-set_lane_same xs i r x h

get-set_lane_other :
    (xs : List ℕ) (i j r : ℕ) → nat_beq i j ≡ false → get_elem? (set_lane j r xs) i ≡ get_elem? xs i
get-set_lane_other [] i j r h = refl
get-set_lane_other (z ∷ xs) zero zero r h = absurd (ground arith)
get-set_lane_other (z ∷ xs) zero (suc j) r h = refl
get-set_lane_other (z ∷ xs) (suc i) zero r h = refl
get-set_lane_other (z ∷ xs) (suc i) (suc j) r h = get-set_lane_other xs i j r (ground arith)

get-last : (xs : List ℕ) (y : ℕ) → get_elem? (xs ++ y ∷ []) (length xs) ≡ some y
get-last [] y = refl
get-last (x ∷ xs) y = get-last xs y

left-required_end :
    (unit : ℕ) (kind : FootprintKind) (item : Milestone)
    → left_of unit item ≤ required_end_of unit kind item
left-required_end unit screen item = omega arith
left-required_end unit print item = omega arith

module _ (unit : ℕ) (kind : FootprintKind) where
  -- What is placed later is apart from what stands in a lane.
  is_apart-layout :
      (items : List Milestone) (ends : List ℕ) (lane end x : ℕ)
      → get_elem? ends lane ≡ some x
      → end ≤ x
      → all (is_apart unit lane end) (layout unit kind ends items) ≡ true
  unfolding layout
  is_apart-layout [] ends lane end x there below = refl
  is_apart-layout (item ∷ items) ends lane end x there below =
      elim (Option-cases (find_lane unit (left_of unit item) ends)) [
        | inl missing ↦
            let (g, l) = get-append ends (required_end_of unit kind item) lane x there in
            let other : nat_beq lane (length ends) ≡ false = ground arith in
            rw (missing, layout) (ground (arith, other, is_apart-layout items _ lane end x g below))
        | inr (l, found) ↦
            let (y, at, gap) = find_lane_lem unit (left_of unit item) ends l found in
            elim (Bool-cases (nat_beq lane l)) [
              | inl same ↦
                  let e : lane ≡ l = ground arith in
                  let x_is_y = some-injective x y (sym there ∙ ap (get_elem? ends) e ∙ at) in
                  let fits : leb (end + 120 * unit) (left_of unit item) ≡ true = ground arith in
                  let r = required_end_of unit kind item in
                  let g = ap (get_elem? (set_lane l r ends)) e ∙ get-set_lane_same ends l r y at in
                  let later = left-required_end unit kind item in
                  let rest =
                    is_apart-layout items (set_lane l r ends) lane end r g
                      (omega (arith, x_is_y)) in
                  rw (found, layout) (rw (same, fits) rest)
              | inr other ↦
                  let g =
                    get-set_lane_other ends lane l (required_end_of unit kind item) other ∙ there in
                  rw (found, layout)
                    (ground (arith, other, is_apart-layout items _ lane end x g below))
            ]
      ]

  layout-has_room :
      (ends : List ℕ) (items : List Milestone) → has_room unit (layout unit kind ends items) ≡ true
  unfolding layout
  layout-has_room ends [] = refl
  layout-has_room ends (item ∷ items) =
      let r = required_end_of unit kind item in
      elim (Option-cases (find_lane unit (left_of unit item) ends)) [
        | inl missing ↦
            let first =
              is_apart-layout items (ends ++ r ∷ []) (length ends) r r (get-last ends r)
                (omega arith) in
            rw (missing, layout) (rw first (layout-has_room (ends ++ r ∷ []) items))
        | inr (l, found) ↦
            let (y, at, gap) = find_lane_lem unit (left_of unit item) ends l found in
            let first =
              is_apart-layout items (set_lane l r ends) l r r (get-set_lane_same ends l r y at)
                (omega arith) in
            rw (found, layout) (rw first (layout-has_room (set_lane l r ends) items))
      ]

  -- In the timeline's layout, at any fineness of the positions, on the screen and in print, each
  -- milestone that is placed later in the same lane begins at least 1.2 percent behind the end of
  -- the room that the earlier one takes.
  pub build_timeline_layout-has_room :
      (items : List Milestone) → has_room unit (build_timeline_layout unit kind items) ≡ true
  unfolding build_timeline_layout
  build_timeline_layout-has_room items = layout-has_room [] items
