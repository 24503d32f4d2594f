-- ===== src/Missions/Store.antt =====
-- services/mission-planning/src/missions/in-memory-mission-store.ts. The identifier of `randomUUID`
-- and the text of the clock are arguments. Every record is cloned on its way in and out, so values
-- are what the callers hold.
pub mod Versions
use pawaacdrone_fleet_operat.Common.{
  ℕ, zero, suc, ◌+◌, max, List, [], ◌∷◌, Option, none, some, if◌then◌else◌, ◌==◌, Str, Dict, get,
  put, sort_by,
}
use pawaacdrone_fleet_operat.Missions.{Waypoint, Mission, NewMission}

unfoldable pub normalize_waypoints : List Waypoint → List Waypoint
normalize_waypoints wps = sort_by (λ (wp : Waypoint). wp.seq) wps

-- `Map<number, Mission>`
abbrev pub VersionMap : Type 0
VersionMap = List (ℕ × Mission)

unfoldable pub get_version : ℕ → VersionMap → Option Mission
get_version n [] = none
get_version n ((k, mission) ∷ versions) = if k == n then some mission else get_version n versions

unfoldable pub set_version : ℕ → Mission → VersionMap → VersionMap
set_version n mission [] = (n, mission) ∷ []
set_version n mission ((k, other) ∷ versions) =
    if k == n then (k, mission) ∷ versions else (k, other) ∷ set_version n mission versions

-- `Math.max(...versions.keys())`, asked of a map with an entry
unfoldable pub max_version : VersionMap → ℕ
max_version [] = 0
max_version ((k, mission) ∷ versions) = max k (max_version versions)

abbrev pub MissionStore : Type 0
MissionStore = Dict VersionMap

unfoldable pub snapshot : Str → ℕ → NewMission → Str → Mission
unfolding normalize_waypoints
snapshot id version input now = record {
  id = id;
  version = version;
  name = input.name;
  waypoints = normalize_waypoints input.waypoints;
  status = input.status;
  created_at = now;
}

unfoldable pub create_version : MissionStore → Str → Str → NewMission → Mission × MissionStore
unfolding snapshot
create_version missions id now input =
    let mission = snapshot id 1 input now in (mission, put id ((1, mission) ∷ []) missions)

-- The body of `addVersion` for the versions found.
unfoldable pub append_version :
    MissionStore → Str → Str → NewMission → VersionMap → Mission × MissionStore
append_version missions id now input versions =
    let next_version = max_version versions + 1 in
    let mission = snapshot id next_version input now in
    (mission, put id (set_version next_version mission versions) missions)

-- `none` is a thrown `MissionNotFoundError`.
unfoldable pub add_version : MissionStore → Str → Str → NewMission → Option (Mission × MissionStore)
add_version missions id now input = elim (get id missions) [
  | none ↦ none
  | some [] ↦ none
  | some (entry ∷ entries) ↦ some (append_version missions id now input (entry ∷ entries))
]

unfoldable pub find_version : MissionStore → Str → ℕ → Option Mission
find_version missions id version = elim (get id missions) [
  | none ↦ none
  | some versions ↦ get_version version versions
]

unfoldable pub latest_of : VersionMap → Option Mission
latest_of versions = get_version (max_version versions) versions

unfoldable pub find_latest : MissionStore → Str → Option Mission
find_latest missions id = elim (get id missions) [
  | none ↦ none
  | some [] ↦ none
  | some (entry ∷ entries) ↦ latest_of (entry ∷ entries)
]
