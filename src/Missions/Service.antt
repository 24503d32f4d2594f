-- ===== src/Missions/Service.antt =====
-- services/mission-planning/src/missions/mission-planning.service.ts, over the in-memory store. A
-- result is the value or the HTTP error, with the store that it leaves.
pub mod History
use pawaacdrone_fleet_operat.Common.{ℕ, List, [], ◌∷◌, Option, none, some, get_or, Str, Number}
use pawaacdrone_fleet_operat.Missions.{MissionStatus, draft, Waypoint, Mission, NewMission}
use pawaacdrone_fleet_operat.Missions.Validation.{WaypointValidationError, validate_waypoints}
use pawaacdrone_fleet_operat.Missions.Store.{
  MissionStore, create_version, add_version, find_version, find_latest,
}

pub record CreateMissionDto : Type 0 where
  pub name : Str
  pub status : Option MissionStatus
  pub waypoints : List Waypoint

pub record UpdateMissionDto : Type 0 where
  pub name : Option Str
  pub status : Option MissionStatus
  pub waypoints : Option (List Waypoint)

pub data Response : Type 0 where
  ok : Mission → Response
  not_found : Response
  bad_request : List WaypointValidationError → Response

unfoldable pub assert_valid : Number → List Waypoint → Option Response
assert_valid max_altitude wps = elim (validate_waypoints wps max_altitude) [
  | [] ↦ none
  | e ∷ es ↦ some (bad_request (e ∷ es))
]

abbrev pub first_content : CreateMissionDto → NewMission
first_content dto = record {
  name = dto.name;
  status = get_or dto.status draft;
  waypoints = dto.waypoints;
}

-- The content of the next version: an omitted field is carried over.
abbrev pub next_content : Mission → UpdateMissionDto → NewMission
next_content latest dto = record {
  name = get_or dto.name latest.name;
  status = get_or dto.status latest.status;
  waypoints = get_or dto.waypoints latest.waypoints;
}

-- The end of `updateMission`: a mission that the store does not know is answered 404.
abbrev pub answer : MissionStore → Option (Mission × MissionStore) → Response × MissionStore
answer missions none = (not_found, missions)
answer missions (some r) = (ok r.0, r.1)

module _ (max_altitude : Number) (missions : MissionStore) where
  unfoldable pub create_mission : Str → Str → CreateMissionDto → Response × MissionStore
  unfolding assert_valid
  create_mission id now dto = elim (assert_valid max_altitude (first_content dto).waypoints) [
    | some error ↦ (error, missions)
    | none ↦
        let created = create_version missions id now (first_content dto) in
        (ok created.0, created.1)
  ]

  unfoldable pub edit_latest : Str → Str → UpdateMissionDto → Mission → Response × MissionStore
  edit_latest id now dto latest =
      elim (assert_valid max_altitude (next_content latest dto).waypoints) [
        | some error ↦ (error, missions)
        | none ↦ answer missions (add_version missions id now (next_content latest dto))
      ]

  unfoldable pub update_mission : Str → Str → UpdateMissionDto → Response × MissionStore
  unfolding edit_latest
  update_mission id now dto = elim (find_latest missions id) [
    | none ↦ (not_found, missions)
    | some latest ↦ edit_latest id now dto latest
  ]

unfoldable pub or_not_found : Option Mission → Response
or_not_found none = not_found
or_not_found (some mission) = ok mission

unfoldable pub get_mission_version : MissionStore → Str → ℕ → Response
unfolding or_not_found
get_mission_version missions id version = or_not_found (find_version missions id version)

unfoldable pub get_latest_mission : MissionStore → Str → Response
unfolding or_not_found
get_latest_mission missions id = or_not_found (find_latest missions id)
