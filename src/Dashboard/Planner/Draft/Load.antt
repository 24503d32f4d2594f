-- ===== src/Dashboard/Planner/Draft/Load.antt =====
-- services/ops-dashboard/src/lib/mission-planner-state.ts: the checks of a stored draft and its
-- loading. A checked value is read at the type that the check gives it.
use pawaacdrone_fleet_operat.Common.{
  ℕ, suc, Bool, true, false, not, ◌&&◌, List, [], ◌∷◌, Option, none, some, if◌then◌else◌, Str,
  codes, ◌===◌, Number, nan,
}
use pawaacdrone_fleet_operat.Missions.{Waypoint}
use pawaacdrone_fleet_operat.Alerts.Rules.{
  Value, undefined, number, text, array, Items, nil, cons, property,
}
use pawaacdrone_fleet_operat.Dashboard.Planner.{GeoPoint}
use pawaacdrone_fleet_operat.Dashboard.Planner.Draft.{
  TransmissionStatus, idle, pending, failed, submitted, TransmissionState, DraftGeofence,
  MissionDraft, mark_failed, Json, DraftStorage,
}

-- `typeof value === 'number'`, `typeof value === 'string'` and `Array.isArray(value)`
abbrev pub is_number : Value → Bool
is_number (number n) = true
is_number _ = false

abbrev pub is_text : Value → Bool
is_text (text s) = true
is_text _ = false

abbrev pub is_array : Value → Bool
is_array (array items) = true
is_array _ = false

-- `items.every(p)`
abbrev pub every_of : (Value → Bool) → Items → Bool
every_of p nil = true
every_of p (cons v vs) = p v && every_of p vs

-- An array all of whose items pass
abbrev pub is_array_of : (Value → Bool) → Value → Bool
is_array_of p (array items) = every_of p items
is_array_of p _ = false

unfoldable pub is_lat_lon_number_pair : Value → Bool
is_lat_lon_number_pair (array (cons v (cons w nil))) = is_number v && is_number w
is_lat_lon_number_pair _ = false

-- A property of what is not an object is read as `undefined`.
unfoldable pub is_waypoint : Value → Bool
unfolding property
is_waypoint v =
    is_number (property v (codes "seq"))
    && is_number (property v (codes "lat"))
    && is_number (property v (codes "lon"))
    && is_number (property v (codes "altitude"))
    && is_number (property v (codes "speed"))
    && is_number (property v (codes "gimbalAngle"))
    && is_number (property v (codes "loiterTime"))

unfoldable pub is_draft_geofence : Value → Bool
unfolding property is_lat_lon_number_pair
is_draft_geofence v =
    is_text (property v (codes "name"))
    && is_array_of is_lat_lon_number_pair (property v (codes "polygon"))

unfoldable pub status_of : Value → Option TransmissionStatus
status_of (text s) =
    if s === codes "idle"
    then some idle
    else if s === codes "pending"
    then some pending
    else if s === codes "failed"
    then some failed
    else if s === codes "submitted"
    then some submitted
    else none
status_of _ = none

-- `t.lastError === undefined || typeof t.lastError === 'string'`
abbrev pub is_error : Value → Bool
is_error undefined = true
is_error (text s) = true
is_error _ = false

abbrev pub is_status : Option TransmissionStatus → Bool
is_status none = false
is_status (some s) = true

unfoldable pub is_transmission_state : Value → Bool
unfolding property status_of
is_transmission_state v =
    is_status (status_of (property v (codes "status")))
    && is_number (property v (codes "attempts"))
    && is_error (property v (codes "lastError"))

-- The checked values, read at their types.
abbrev pub number_of : Value → Number
number_of (number n) = n
number_of _ = nan

abbrev pub text_of : Value → Str
text_of (text s) = s
text_of _ = []

abbrev pub error_of : Value → Option Str
error_of (text s) = some s
error_of _ = none

-- The waypoint that `resequence` makes of a value at an index.
unfoldable pub waypoint_at : ℕ → Value → Waypoint
unfolding property
waypoint_at index v = record {
  seq = index;
  lat = number_of (property v (codes "lat"));
  lon = number_of (property v (codes "lon"));
  altitude = number_of (property v (codes "altitude"));
  speed = number_of (property v (codes "speed"));
  gimbal_angle = number_of (property v (codes "gimbalAngle"));
  loiter_time = number_of (property v (codes "loiterTime"));
}

abbrev pub items_in : Value → Items
items_in (array items) = items
items_in _ = nil

-- `resequence(candidate.waypoints)`, from index `index`
unfoldable pub waypoints_from : ℕ → Items → List Waypoint
unfolding waypoint_at
waypoints_from index nil = []
waypoints_from index (cons v vs) = waypoint_at index v ∷ waypoints_from (suc index) vs

abbrev pub point_of : Value → GeoPoint
point_of (array (cons v (cons w nil))) = (number_of v, number_of w)
point_of _ = (nan, nan)

abbrev pub list_of {ℓ} : {A : Type ℓ} → (Value → A) → Items → List A
list_of f nil = []
list_of f (cons v vs) = f v ∷ list_of f vs

unfoldable pub geofence_of : Value → DraftGeofence
unfolding property
geofence_of v = record {
  name = text_of (property v (codes "name"));
  polygon = list_of point_of (items_in (property v (codes "polygon")));
}

abbrev pub interrupted : Str
interrupted = codes "Submission was interrupted; please retry."

-- A submission that was in flight counts as failed.
abbrev pub resumed : TransmissionState → TransmissionState
resumed t = elim t.status [ pending ↦ mark_failed t interrupted | _ ↦ t ]

unfoldable pub transmission_of : TransmissionStatus → Value → TransmissionState
unfolding property
transmission_of status v = record {
  status = status;
  attempts = number_of (property v (codes "attempts"));
  last_error = error_of (property v (codes "lastError"));
}

unfoldable pub is_draft : Value → Bool
unfolding property is_waypoint is_draft_geofence is_transmission_state
is_draft v =
    is_text (property v (codes "name"))
    && is_array_of is_waypoint (property v (codes "waypoints"))
    && is_array_of is_draft_geofence (property v (codes "geofences"))
    && is_transmission_state (property v (codes "transmission"))

abbrev pub status_or_idle : Option TransmissionStatus → TransmissionStatus
status_or_idle none = idle
status_or_idle (some status) = status

unfoldable pub draft_of : Value → MissionDraft
unfolding property waypoints_from geofence_of transmission_of status_of mark_failed
draft_of v =
    let t = property v (codes "transmission") in
    record {
      name = text_of (property v (codes "name"));
      waypoints = waypoints_from 0 (items_in (property v (codes "waypoints")));
      geofences = list_of geofence_of (items_in (property v (codes "geofences")));
      transmission =
          resumed (transmission_of (status_or_idle (status_of (property t (codes "status")))) t);
    }

unfoldable pub load_draft : Json → DraftStorage → Option MissionDraft
unfolding is_draft draft_of
load_draft io storage = if not storage.readable then none else elim storage.item [
  | none ↦ none
  | some raw ↦ elim (io.parse raw) [
    | none ↦ none
    | some parsed ↦ if is_draft parsed then some (draft_of parsed) else none
  ]
]
