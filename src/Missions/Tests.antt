-- ===== src/Missions/Tests.antt =====
-- Missions at concrete inputs.
use mathlib.Core.List.{Perm}
use mathlib.Core.Option
use pawaacdrone_fleet_operat.Common.{
  ℕ, ◌≡◌, ◌↔◌, refl, List, [], ◌∷◌, map, none, some, All, Number, ratio, negsuc, int, codes, get,
  put, ◌===◌, num_le, num_lt, sort_by, insert_by, counts_from, range, length,
}
use pawaacdrone_fleet_operat.Missions.{
  MissionStatus, draft, validated, Waypoint, Mission, NewMission,
}
use pawaacdrone_fleet_operat.Missions.Validation.{
  validate_waypoints, in_inclusive, waypoint_errors, all_waypoint_errors, validate_sequence, at,
  lat, altitude, sequence,
}
use pawaacdrone_fleet_operat.Missions.Validation.Ranges.{InRange, validate_waypoints_iff}
use pawaacdrone_fleet_operat.Missions.Store.{
  find_version, find_latest, snapshot, normalize_waypoints, add_version, append_version,
  set_version, max_version, latest_of, create_version, get_version,
}
use pawaacdrone_fleet_operat.Missions.Store.Versions.{
  Write, write, write_all, replay, replay_all, entry, newest, write_all_refines,
}
use pawaacdrone_fleet_operat.Missions.Store.Versions
use pawaacdrone_fleet_operat.Missions.Service.{
  UpdateMissionDto, assert_valid, create_mission, update_mission, edit_latest,
}
use pawaacdrone_fleet_operat.Missions.Service.History.{Sound, Request, post, handle, handle_all}
use pawaacdrone_fleet_operat.Missions.Service.History.Edits.{find_version-Sound}

abbrev waypoint : ℕ → Number → Number → Waypoint
waypoint seq latitude height = record {
  seq = seq;
  lat = latitude;
  lon = int 28;
  altitude = height;
  speed = int 5;
  gimbal_angle = ratio (negsuc 89) 0;
  loiter_time = int 0;
}

-- Two waypoints in reverse order.
abbrev reversed : List Waypoint
reversed = waypoint 1 (int 3) (int 50) ∷ waypoint 0 (ratio (negsuc 170) 2) (int 60) ∷ []

validate_waypoints_test :
    validate_waypoints (waypoint 1 (ratio (negsuc 1019) 10) (int 501) ∷ []) (int 500)
    ≡ at 0 lat ∷ at 0 altitude ∷ sequence ∷ []
unfolding validate_waypoints all_waypoint_errors waypoint_errors in_inclusive validate_sequence
    num_le num_lt sort_by insert_by counts_from
validate_waypoints_test = refl

validate_waypoints_iff_example : (validate_waypoints reversed (int 500) ≡ []) ↔ (
    All (InRange (int 500)) reversed
    × Perm (map (λ (wp : Waypoint). wp.seq) reversed) (range 0 (length reversed)))
validate_waypoints_iff_example = validate_waypoints_iff (int 500) reversed

abbrev first_input : NewMission
first_input = record { name = codes "north"; status = draft; waypoints = reversed }

abbrev writes : List Write
writes =
    Versions.create (codes "m1") (codes "t1") first_input
    ∷ Versions.add (codes "m1") (codes "t2") first_input
    ∷ Versions.add (codes "m2") (codes "t3") first_input
    ∷ []

write_all_refines_example :
    (find_version (write_all [] writes) (codes "m1") 2
      ≡ entry (replay_all (λ j. []) writes (codes "m1")) 2)
    × (find_latest (write_all [] writes) (codes "m1")
        ≡ newest (replay_all (λ j. []) writes (codes "m1")))
write_all_refines_example = write_all_refines writes (codes "m1") 2

abbrev requests : List Request
requests =
    post (codes "m1") (codes "t1")
      record { name = codes "north"; status = none; waypoints = reversed }
    ∷ []

abbrev edit : UpdateMissionDto
edit = record { name = none; status = some validated; waypoints = none }

find_version-Sound_example :
    Sound (int 500) (codes "m1") 1 (snapshot (codes "m1") 1 first_input (codes "t1"))
unfolding handle_all handle create_mission assert_valid validate_waypoints all_waypoint_errors
    waypoint_errors in_inclusive validate_sequence num_le num_lt sort_by insert_by counts_from
    find_version create_version get_version get put ◌===◌
find_version-Sound_example =
    find_version-Sound (int 500) requests (codes "m1") 1
      (snapshot (codes "m1") 1 first_input (codes "t1")) refl

-- The edit of the stored mission is its second version.
update_mission_test :
    Option.map {B = ℕ × MissionStatus}
      (λ (m : Mission). (m.version, m.status))
      (find_latest
        (update_mission
          (int 500)
          (handle_all (int 500) [] requests)
          (codes "m1")
          (codes "t2")
          edit).1
        (codes "m1"))
    ≡ some (2, validated)
unfolding update_mission edit_latest add_version append_version set_version max_version find_latest
    latest_of handle_all handle create_mission assert_valid validate_waypoints all_waypoint_errors
    waypoint_errors in_inclusive validate_sequence num_le num_lt sort_by insert_by counts_from
    find_version create_version get_version get put ◌===◌ snapshot normalize_waypoints
update_mission_test = refl
