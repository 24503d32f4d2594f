-- ===== src/Dashboard/FleetMap.antt =====
-- services/ops-dashboard/src/lib/fleet-map-state.ts. A state is a map from drone identifiers; the
-- sorted list that is rendered is not modelled.
pub mod Freshness
mod Tests
use pawaacdrone_fleet_operat.Common.{
  ℕ, Bool, true, false, not, ◌||◌, List, [], ◌∷◌, Option, none, some, if◌then◌else◌, Str, Dict, get,
  put, text_lt, Number,
}
use pawaacdrone_fleet_operat.Fleet.{DroneStatus, active, status_eq, Drone}
use pawaacdrone_fleet_operat.Telemetry.{TelemetrySample}
use pawaacdrone_fleet_operat.Dashboard.Planner.{LatLon}

pub record DroneMarker : Type 0 where
  pub drone_id : Str
  pub serial_number : Option Str
  pub model : Option Str
  pub status : DroneStatus
  pub position : Option LatLon
  pub battery_pct : Option Number
  pub flight_mode : Option Str
  pub altitude : Option Number
  pub last_telemetry_ts : Option Str

abbrev pub FleetMarkerState : Type 0
FleetMarkerState = Dict DroneMarker

-- services/ops-dashboard/src/lib/ws-client.ts
pub record DroneStatusEvent : Type 0 where
  pub drone_id : Str
  pub status : DroneStatus

-- A marker without telemetry
abbrev pub unseen : Str → Option Str → Option Str → DroneStatus → DroneMarker
unseen id serial model status = record {
  drone_id = id;
  serial_number = serial;
  model = model;
  status = status;
  position = none;
  battery_pct = none;
  flight_mode = none;
  altitude = none;
  last_telemetry_ts = none;
}

unfoldable pub seed_from : FleetMarkerState → List Drone → FleetMarkerState
seed_from next [] = next
seed_from next (drone ∷ drones) =
    seed_from
      (put drone.id (unseen drone.id (some drone.serial_number) (some drone.model) drone.status)
        next)
      drones

unfoldable pub seed_drones : List Drone → FleetMarkerState
unfolding seed_from
seed_drones drones = seed_from [] drones

unfoldable pub is_fresh_sample : Option Str → Str → Bool
is_fresh_sample none candidate = true
is_fresh_sample (some previous) candidate = text_lt previous candidate

-- The marker that a sample makes of the one that is there.
abbrev pub updated : TelemetrySample → DroneMarker → DroneMarker
updated sample existing = record {
  drone_id = sample.drone_id;
  serial_number = existing.serial_number;
  model = existing.model;
  status = existing.status;
  position = some record { lat = sample.lat; lon = sample.lon };
  battery_pct = some sample.battery.remaining_pct;
  flight_mode = some sample.flight_mode;
  altitude = some sample.altitude;
  last_telemetry_ts = some sample.ts;
}

-- `existing?.serialNumber` and the like of no marker
abbrev pub discovered : Str → DroneMarker
discovered id = unseen id none none active

unfoldable pub apply_telemetry_sample : FleetMarkerState → TelemetrySample → FleetMarkerState
unfolding is_fresh_sample
apply_telemetry_sample state sample = elim (get sample.drone_id state) [
  | none ↦ put sample.drone_id (updated sample (discovered sample.drone_id)) state
  | some existing ↦
      if not (is_fresh_sample existing.last_telemetry_ts sample.ts)
      then state
      else put sample.drone_id (updated sample existing) state
]

abbrev pub with_status : DroneStatus → DroneMarker → DroneMarker
with_status status existing = record {
  drone_id = existing.drone_id;
  serial_number = existing.serial_number;
  model = existing.model;
  status = status;
  position = existing.position;
  battery_pct = existing.battery_pct;
  flight_mode = existing.flight_mode;
  altitude = existing.altitude;
  last_telemetry_ts = existing.last_telemetry_ts;
}

unfoldable pub apply_status_event : FleetMarkerState → DroneStatusEvent → FleetMarkerState
apply_status_event state event = elim (get event.drone_id state) [
  | none ↦ put event.drone_id (unseen event.drone_id none none event.status) state
  | some existing ↦
      if status_eq existing.status event.status
      then state
      else put event.drone_id (with_status event.status existing) state
]
