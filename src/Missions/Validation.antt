-- ===== src/Missions/Validation.antt =====
-- services/mission-planning/src/missions/waypoint-validation.ts. An error keeps the waypoint's index
-- and the field; its message is a fixed text for each field.
pub mod Ranges
use pawaacdrone_fleet_operat.Common.{
  ℕ, zero, suc, Bool, true, false, not, ◌&&◌, List, [], ◌∷◌, ◌++◌, map, if◌then◌else◌, Number, ℤ,
  pos, negsuc, ratio, int, is_finite, num_le, num_lt, sort, counts_from,
}
use pawaacdrone_fleet_operat.Missions.{Waypoint}

pub data WaypointField : Type 0 where
  lat lon altitude speed gimbal_angle loiter_time : WaypointField

pub data WaypointValidationError : Type 0 where
  -- `waypoints[index].field`
  at : ℕ → WaypointField → WaypointValidationError
  -- `waypoints.seq`
  sequence : WaypointValidationError

abbrev pub minus_90 : Number
minus_90 = ratio (negsuc 89) 0

abbrev pub minus_180 : Number
minus_180 = ratio (negsuc 179) 0

unfoldable pub in_inclusive : Number → Number → Number → Bool
in_inclusive value low high = is_finite value && (num_le low value && num_le value high)

-- `if (!ok) errors.push(error)`
abbrev pub unless : Bool → WaypointValidationError → List WaypointValidationError
unless ok error = if ok then [] else error ∷ []

unfoldable pub waypoint_errors : Number → ℕ → Waypoint → List WaypointValidationError
unfolding in_inclusive
waypoint_errors max_altitude index wp =
    unless (in_inclusive wp.lat minus_90 (int 90)) (at index lat)
    ++ (unless (in_inclusive wp.lon minus_180 (int 180)) (at index lon)
        ++ (unless
              (is_finite wp.altitude
                && (num_lt (int 0) wp.altitude && num_le wp.altitude max_altitude))
              (at index altitude)
            ++ (unless (is_finite wp.speed && num_lt (int 0) wp.speed) (at index speed)
                ++ (unless (in_inclusive wp.gimbal_angle minus_90 (int 90)) (at index gimbal_angle)
                    ++ unless (is_finite wp.loiter_time && num_le (int 0) wp.loiter_time)
                        (at index loiter_time)))))

-- `waypoints.forEach((wp, index) => ...)`, from index `index`
unfoldable pub all_waypoint_errors : Number → ℕ → List Waypoint → List WaypointValidationError
unfolding waypoint_errors
all_waypoint_errors max_altitude index [] = []
all_waypoint_errors max_altitude index (wp ∷ wps) =
    waypoint_errors max_altitude index wp ++ all_waypoint_errors max_altitude (suc index) wps

unfoldable pub validate_sequence : List Waypoint → List WaypointValidationError
validate_sequence wps = unless (counts_from 0 (sort (map (λ (wp : Waypoint). wp.seq) wps))) sequence

unfoldable pub validate_waypoints : List Waypoint → Number → List WaypointValidationError
unfolding all_waypoint_errors validate_sequence
validate_waypoints wps max_altitude =
    all_waypoint_errors max_altitude 0 wps ++ validate_sequence wps
