-- ===== src/Missions.antt =====
-- packages/shared-types/src/mission.ts: waypoints and versioned missions. A `seq` passed `@IsInt()`
-- and `@Min(0)` of services/mission-planning/src/missions/dto.ts, so it is a natural number.
pub mod Validation
pub mod Store
pub mod Service
pub mod Export
pub mod Templates
mod Tests
use pawaacdrone_fleet_operat.Common.{ℕ, Bool, true, false, List, Str, Number}

pub data MissionStatus : Type 0 where
  draft validated archived : MissionStatus

pub record Waypoint : Type 0 where
  pub seq : ℕ
  pub lat : Number
  pub lon : Number
  pub altitude : Number
  pub speed : Number
  pub gimbal_angle : Number
  pub loiter_time : Number

pub record Mission : Type 0 where
  pub id : Str
  pub version : ℕ
  pub name : Str
  pub waypoints : List Waypoint
  pub status : MissionStatus
  pub created_at : Str

-- missions/mission-store.ts
pub record NewMission : Type 0 where
  pub name : Str
  pub status : MissionStatus
  pub waypoints : List Waypoint
