-- ===== src/Dashboard/Planner/Conflicts.antt =====
-- services/ops-dashboard/src/lib/mission-planner-state.ts: the segments to draw in red.
use pawaacdrone_fleet_operat.Common.{
  ℕ, suc, List, [], ◌∷◌, Option, none, some, Str, get_elem?, sort_by,
}
use pawaacdrone_fleet_operat.Missions.{Waypoint}
use pawaacdrone_fleet_operat.Dashboard.Planner.{LatLon}

-- packages/shared-types/src/mission.ts
pub record GeofenceConflict : Type 0 where
  pub segment_index : ℕ
  pub zone_id : Str

pub record ConflictSegment : Type 0 where
  pub segment_index : ℕ
  pub zone_id : Str
  pub from : LatLon
  pub to : LatLon

abbrev pub place : Waypoint → LatLon
place wp = record { lat = wp.lat; lon = wp.lon }

-- one round of the loop
unfoldable pub segment_of : List Waypoint → GeofenceConflict → Option ConflictSegment
segment_of ordered conflict = elim (get_elem? ordered conflict.segment_index) [
  | none ↦ none
  | some from ↦ elim (get_elem? ordered (suc conflict.segment_index)) [
    | none ↦ none
    | some to ↦ some record {
      segment_index = conflict.segment_index;
      zone_id = conflict.zone_id;
      from = place from;
      to = place to;
    }
  ]
]

unfoldable pub segments_of : List Waypoint → List GeofenceConflict → List ConflictSegment
unfolding segment_of
segments_of ordered [] = []
segments_of ordered (conflict ∷ conflicts) = elim (segment_of ordered conflict) [
  | none ↦ segments_of ordered conflicts
  | some segment ↦ segment ∷ segments_of ordered conflicts
]

unfoldable pub map_conflict_segments : List Waypoint → List GeofenceConflict → List ConflictSegment
unfolding segments_of
map_conflict_segments wps conflicts =
    segments_of (sort_by (λ (wp : Waypoint). wp.seq) wps) conflicts
