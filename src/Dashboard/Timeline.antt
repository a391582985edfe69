-- ===== src/Dashboard/Timeline.antt =====
-- The milestone timeline (components/dashboard/DashboardMilestoneTimeline.tsx): in which lane each
-- milestone stands. Positions are counted in units, `100 * unit` for a percent, with any fineness
-- `unit`; a milestone before the timeline stands at 0.
use clip_to_doc_archive.Prelude.{
  ℕ, zero, suc, ◌+◌, ◌-◌, ◌*◌, min, max, Option, none, some, List, [], ◌∷◌, ◌++◌, leb,
  if◌then◌else◌, nat_eq, list_eq, length,
}

pub record Milestone : Type 0 where
  pub start : ℕ
  pub end : ℕ
  pub title_length : ℕ

pub data FootprintKind : Type 0 where
  screen print : FootprintKind

-- A milestone in its lane: its left edge and where the lane is free again.
pub record Placed : Type 0 where
  pub left : ℕ
  pub required_end : ℕ
  pub lane : ℕ

-- `percentFromDate`, up to the end of the timeline.
abbrev pub percent_from_position : ℕ → ℕ → ℕ
percent_from_position unit position = min position (10000 * unit)

-- `clamp(title.length * 0.9, 12, 26)`
abbrev pub estimate_label_span : ℕ → ℕ → ℕ
estimate_label_span unit title_length =
    max (1200 * unit) (min (2600 * unit) (90 * unit * title_length))

abbrev pub left_of : ℕ → Milestone → ℕ
left_of unit item =
    min (percent_from_position unit item.start) (percent_from_position unit item.end)

abbrev pub width_of : ℕ → Milestone → ℕ
width_of unit item = max (75 * unit) (
    max (percent_from_position unit item.start) (percent_from_position unit item.end)
    - left_of unit item)

abbrev pub footprint_of : ℕ → FootprintKind → Milestone → ℕ
footprint_of unit print item = max (width_of unit item) (estimate_label_span unit item.title_length)
footprint_of unit screen item = max (width_of unit item) (550 * unit)

abbrev pub required_end_of : ℕ → FootprintKind → Milestone → ℕ
required_end_of unit kind item =
    min (10000 * unit) (left_of unit item + footprint_of unit kind item)

-- `laneEnds.findIndex((laneEnd) => left >= laneEnd + 1.2)`
abbrev pub find_lane : (unit left : ℕ) → List ℕ → Option ℕ
find_lane unit left [] = none
find_lane unit left (lane_end ∷ lane_ends) =
    let later = find_lane unit left lane_ends in
    if leb (lane_end + 120 * unit) left
    then some 0
    else elim later [ none ↦ none | some lane ↦ some (suc lane) ]

abbrev pub set_lane : ℕ → ℕ → List ℕ → List ℕ
set_lane lane required_end [] = []
set_lane zero required_end (_ ∷ lane_ends) = required_end ∷ lane_ends
set_lane (suc lane) required_end (lane_end ∷ lane_ends) =
    lane_end ∷ set_lane lane required_end lane_ends

module _ (unit : ℕ) (kind : FootprintKind) where
  abbrev pub placed : Milestone → ℕ → Placed
  placed item lane = record {
    left = left_of unit item;
    required_end = required_end_of unit kind item;
    lane = lane;
  }

  unfoldable pub layout : List ℕ → List Milestone → List Placed
  layout lane_ends [] = []
  layout lane_ends (item ∷ items) = elim (find_lane unit (left_of unit item) lane_ends) [
    | none ↦
        placed item (length lane_ends)
        ∷ layout (lane_ends ++ required_end_of unit kind item ∷ []) items
    | some lane ↦
        placed item lane ∷ layout (set_lane lane (required_end_of unit kind item) lane_ends) items
  ]

  unfoldable pub build_timeline_layout : List Milestone → List Placed
  unfolding layout
  build_timeline_layout items = layout [] items
