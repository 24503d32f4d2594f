-- ===== src/Telemetry.antt =====
-- Telemetry ingestion, services/telemetry-ingestion/src: the checks of persist/bounds.ts and the
-- batches of persist/persister.ts, over the types of packages/shared-types/src/telemetry.ts.
pub mod Bounds
pub mod Persister
pub mod Anomaly
mod Tests
use pawaacdrone_fleet_operat.Common.{Bool, Str, Number}

pub record Velocity : Type 0 where
  pub vx : Number
  pub vy : Number
  pub vz : Number

pub record Attitude : Type 0 where
  pub roll : Number
  pub pitch : Number
  pub yaw : Number

pub record BatteryState : Type 0 where
  pub voltage : Number
  pub current : Number
  pub remaining_pct : Number

pub record Ekf2State : Type 0 where
  pub healthy : Bool
  pub flags : Number

pub record TelemetrySample : Type 0 where
  pub drone_id : Str
  pub ts : Str
  pub lat : Number
  pub lon : Number
  pub altitude : Number
  pub velocity : Velocity
  pub attitude : Attitude
  pub battery : BatteryState
  pub ekf2 : Ekf2State
  pub rc_signal_strength : Number
  pub flight_mode : Str
  pub armed : Bool
