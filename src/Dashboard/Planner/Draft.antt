-- ===== src/Dashboard/Planner/Draft.antt =====
-- services/ops-dashboard/src/lib/mission-planner-state.ts: the transmission of a draft and its writing
-- to local storage. `JSON` is a parameter; its values are those of the rule engine.
pub mod Load
pub mod Restore
use pawaacdrone_fleet_operat.Common.{
  ℕ, zero, suc, ◌+◌, ◌-◌, ◌*◌, ◌^◌, min, Bool, true, false, not, ◌&&◌, ◌||◌, List, [], ◌∷◌, map,
  Option, none, some, if◌then◌else◌, leb, Str, codes, ◌===◌, Number, ℤ, pos, negsuc, nan, ratio,
  int, is_finite,
}
use pawaacdrone_fleet_operat.Missions.{Waypoint}
use pawaacdrone_fleet_operat.Alerts.Rules.{
  Value, undefined, null, bool, number, text, array, object, Items, nil, cons, Fields, end, field,
  property,
}
use pawaacdrone_fleet_operat.Dashboard.Planner.{GeoPoint}

pub data TransmissionStatus : Type 0 where
  idle pending failed submitted : TransmissionStatus

pub record TransmissionState : Type 0 where
  pub status : TransmissionStatus
  pub attempts : Number
  pub last_error : Option Str

pub record DraftGeofence : Type 0 where
  pub name : Str
  pub polygon : List GeoPoint

pub record MissionDraft : Type 0 where
  pub name : Str
  pub waypoints : List Waypoint
  pub geofences : List DraftGeofence
  pub transmission : TransmissionState

abbrev pub idle_transmission : TransmissionState
idle_transmission = record { status = idle; attempts = int 0; last_error = none }

abbrev pub empty_draft : Str → MissionDraft
empty_draft name = record {
  name = name;
  waypoints = [];
  geofences = [];
  transmission = idle_transmission;
}

unfoldable pub mark_pending : TransmissionState → TransmissionState
mark_pending state = record { status = pending; attempts = state.attempts; last_error = none }

-- `n + 1`, without the rounding of doubles from 2 ^ 53 on
abbrev pub increment : Number → Number
increment (ratio (pos a) b) = ratio (pos (a + suc b)) b
increment (ratio (negsuc a) b) =
    if leb a b then ratio (pos (b - a)) b else ratio (negsuc (a - suc b)) b
increment n = n

unfoldable pub mark_failed : TransmissionState → Str → TransmissionState
mark_failed state error = record {
  status = failed;
  attempts = increment state.attempts;
  last_error = some error;
}

unfoldable pub mark_submitted : TransmissionState → TransmissionState
mark_submitted state = record { status = submitted; attempts = state.attempts; last_error = none }

unfoldable pub can_transmit : TransmissionState → Bool
can_transmit state = elim state.status [ idle ↦ true | failed ↦ true | _ ↦ false ]

unfoldable pub next_retry_delay_ms : ℕ → ℕ → ℕ → ℕ
next_retry_delay_ms zero base cap = base
next_retry_delay_ms (suc n) base cap = min (base * 2 ^ n) cap

pub record Json : Type 0 where
  pub stringify : Value → Str
  -- `none` is a `SyntaxError`
  pub parse : Str → Option Value

-- Local storage under `DRAFT_STORAGE_KEY`; a storage may refuse reading or writing.
pub record DraftStorage : Type 0 where
  pub readable : Bool
  pub writable : Bool
  pub item : Option Str

-- The value that a draft is to `JSON.stringify`.
abbrev pub point_value : GeoPoint → Value
point_value (lon, lat) = array (cons (number lon) (cons (number lat) nil))

abbrev pub waypoint_value : Waypoint → Value
waypoint_value wp = object (
    field (codes "seq") (number (int wp.seq)) (
      field (codes "lat") (number wp.lat) (
        field (codes "lon") (number wp.lon) (
          field (codes "altitude") (number wp.altitude) (
            field (codes "speed") (number wp.speed) (
              field (codes "gimbalAngle") (number wp.gimbal_angle)
                (field (codes "loiterTime") (number wp.loiter_time) end)))))))

abbrev pub items_of {ℓ} : {A : Type ℓ} → (A → Value) → List A → Items
items_of f [] = nil
items_of f (x ∷ xs) = cons (f x) (items_of f xs)

abbrev pub geofence_value : DraftGeofence → Value
geofence_value gf = object (
    field (codes "name") (text gf.name)
      (field (codes "polygon") (array (items_of point_value gf.polygon)) end))

abbrev pub status_text : TransmissionStatus → Str
status_text idle = codes "idle"
status_text pending = codes "pending"
status_text failed = codes "failed"
status_text submitted = codes "submitted"

-- An absent error is a property that JSON leaves out.
abbrev pub error_fields : Option Str → Fields
error_fields none = end
error_fields (some error) = field (codes "lastError") (text error) end

abbrev pub transmission_value : TransmissionState → Value
transmission_value t = object (
    field (codes "status") (text (status_text t.status))
      (field (codes "attempts") (number t.attempts) (error_fields t.last_error)))

unfoldable pub draft_value : MissionDraft → Value
draft_value draft = object (
    field (codes "name") (text draft.name) (
      field (codes "waypoints") (array (items_of waypoint_value draft.waypoints)) (
        field (codes "geofences") (array (items_of geofence_value draft.geofences))
          (field (codes "transmission") (transmission_value draft.transmission) end))))

unfoldable pub save_draft : Json → DraftStorage → MissionDraft → DraftStorage
unfolding draft_value
save_draft io storage draft =
    if storage.writable
    then record {
      readable = storage.readable;
      writable = true;
      item = some (io.stringify (draft_value draft));
    }
    else storage

unfoldable pub clear_draft : DraftStorage → DraftStorage
clear_draft storage =
    if storage.writable
    then record { readable = storage.readable; writable = true; item = none }
    else storage
