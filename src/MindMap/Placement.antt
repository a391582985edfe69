-- ===== src/MindMap/Placement.antt =====
-- Where the mind map puts its nodes (components/mindmap/MindMapWorkspace.tsx): each node goes to the
-- first spot of its rings that no other node touches, or to the one with the fewest. The geometry
-- computes with fractions, so it is a parameter: the spot of a ring and an angle, the spot at the
-- base radius, the bounds of a node at a spot, and whether two bounds overlap.
pub mod Least
use clip_to_doc_archive.Prelude.{
  ℕ, zero, suc, ◌+◌, Bool, true, false, Option, none, some, List, [], ◌∷◌, ◌++◌, ltb, if◌then◌else◌,
  ◌==◌, nat_eq, list_eq,
}

-- The 17 angles of a ring, by their number in `ANGLE_OFFSETS`.
abbrev pub angle_numbers : List ℕ
angle_numbers = 0 ∷ 1 ∷ 2 ∷ 3 ∷ 4 ∷ 5 ∷ 6 ∷ 7 ∷ 8 ∷ 9 ∷ 10 ∷ 11 ∷ 12 ∷ 13 ∷ 14 ∷ 15 ∷ 16 ∷ []

-- The variables of the search; a least overlap that is none is infinite.
pub record Search (P : Type 0) : Type 0 where
  pub placed_point : Option P
  pub best_point : Option P
  pub best_overlap : Option ℕ

abbrev pub fresh : {P : Type 0} → Search P
fresh = record { placed_point = none; best_point = none; best_overlap = none }

abbrev pub below_best : ℕ → Option ℕ → Bool
below_best n none = true
below_best n (some m) = ltb n m

abbrev pub is_some : {A : Type 0} → Option A → Bool
is_some none = false
is_some (some a) = true

module _ {P B : Type 0} (bounds : P → B) (overlaps : B → B → Bool) (occupied : List B) where
  -- `occupied.reduce((sum, node) => (overlaps(current, node) ? sum + 1 : sum), 0)`
  pub overlap_count : B → List B → ℕ
  overlap_count current [] = 0
  overlap_count current (node ∷ nodes) =
      (if overlaps current node then 1 else 0) + overlap_count current nodes

  abbrev pub count_at : P → ℕ
  count_at point = overlap_count (bounds point) occupied

  -- A spot that is not free is kept if it is better than the best so far.
  abbrev pub keep_best : P → Search P → Search P
  keep_best point s =
      if below_best (count_at point) s.best_overlap
      then record s { best_point = some point; best_overlap = some (count_at point) }
      else s

  -- The inner loop, which a free spot breaks off.
  unfoldable pub try_angles : (ℕ → P) → List ℕ → Search P → Search P
  try_angles spot [] s = s
  try_angles spot (angle ∷ angles) s =
      let rest = try_angles spot angles (keep_best (spot angle) s) in
      if count_at (spot angle) == 0 then record s { placed_point = some (spot angle) } else rest

  -- The outer loop, over as many rings as are left; `spot ring angle` is the clamped point.
  unfoldable pub try_rings : (ℕ → ℕ → P) → (left ring : ℕ) → Search P → Search P
  try_rings spot zero ring s = s
  try_rings spot (suc left) ring s =
      let s' = try_angles (spot ring) angle_numbers s in
      let rest = try_rings spot left (suc ring) s' in if is_some s'.placed_point then s' else rest

-- `placedPoint ?? bestPoint ?? home`
abbrev pub or_else : {A : Type 0} → Option A → A → A
or_else none d = d
or_else (some a) d = a

abbrev pub final_point : {P : Type 0} → P → Search P → P
final_point home s = or_else s.placed_point (or_else s.best_point home)

-- The geometry of the nodes; `bounds` is the ellipse of a candidate at a point.
pub record Geometry (C P B : Type 0) : Type 0 where
  pub spot : C → (ring angle : ℕ) → P
  pub home : C → P
  pub bounds : C → P → B
  pub overlaps : B → B → Bool

module _ {C P B : Type 0} (g : Geometry C P B) (max_rings : ℕ) where
  unfoldable pub place : C → List B → P
  unfolding try_rings try_angles
  place c occupied =
      final_point (g.home c)
        (try_rings (g.bounds c) g.overlaps occupied (g.spot c) max_rings 0 fresh)

  -- The points in the order of the candidates; each node that is placed is occupied for the next.
  unfoldable pub place_candidates : List C → List B → List P
  unfolding place
  place_candidates [] occupied = []
  place_candidates (c ∷ cs) occupied =
      let point = place c occupied in
      point ∷ place_candidates cs (occupied ++ g.bounds c point ∷ [])
