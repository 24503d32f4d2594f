-- ===== src/Fleet.antt =====
-- The fleet registry, services/fleet-registry/src: drones with versions (drones/in-memory-drone-store),
-- maintenance (drones/maintenance), events with redelivery (events/resilient-event-publisher), and the
-- service over them (drones/fleet-registry.service).
pub mod Maintenance
pub mod Store
pub mod Publisher
pub mod Service
mod Tests
use pawaacdrone_fleet_operat.Common.{ℕ, Bool, true, false, Option, Str, Number}
use pawaacdrone_fleet_operat.Alerts.Rules.{Fields}

pub data DroneStatus : Type 0 where
  active maintenance decommissioned : DroneStatus

unfoldable pub status_eq : DroneStatus → DroneStatus → Bool
status_eq active active = true
status_eq maintenance maintenance = true
status_eq decommissioned decommissioned = true
status_eq _ _ = false

pub record Drone : Type 0 where
  pub id : Str
  pub serial_number : Str
  pub model : Str
  pub firmware_version : Str
  pub hardware_config : Fields
  pub status : DroneStatus
  pub version : ℕ
  pub created_at : Str
  pub updated_at : Str

pub record NewDrone : Type 0 where
  pub serial_number : Str
  pub model : Str
  pub firmware_version : Str
  pub hardware_config : Fields
  pub status : DroneStatus

-- Partial<NewDrone>
pub record DroneChanges : Type 0 where
  pub serial_number : Option Str
  pub model : Option Str
  pub firmware_version : Option Str
  pub hardware_config : Option Fields
  pub status : Option DroneStatus

pub record DroneFilter : Type 0 where
  pub status : Option DroneStatus
  pub model : Option Str

pub record MaintenanceThresholds : Type 0 where
  pub max_battery_cycles : Number
  pub max_motor_hours : Number
  pub max_propeller_life_hours : Number

pub record ComponentLifecycle : Type 0 where
  pub drone_id : Str
  pub battery_cycles : Number
  pub motor_hours : Number
  pub propeller_replacements : Number
  pub thresholds : MaintenanceThresholds

pub data MaintenanceComponent : Type 0 where
  battery motor propeller : MaintenanceComponent

pub data MaintenanceStatus : Type 0 where
  due overdue : MaintenanceStatus

pub record MaintenanceAlert : Type 0 where
  pub drone_id : Str
  pub component : MaintenanceComponent
  pub status : MaintenanceStatus
  pub current_value : Number
  pub threshold : Number
