-- ===== src/Fleet/Service.antt =====
-- services/fleet-registry/src/drones/fleet-registry.service.ts over the store and the publisher. Each
-- handler runs to its end before the next; `randomUUID()`, the clock and the addition of floating
-- point numbers are arguments.
pub mod Events
pub mod Lifecycles
pub mod Usage
use pawaacdrone_fleet_operat.Common.{
  ℕ, ◌≡◌, Bool, true, false, not, ◌&&◌, List, [], ◌∷◌, Option, none, some, Str, if◌then◌else◌,
  get_or, filter, Number, int, num_lt,
}
use pawaacdrone_fleet_operat.Alerts.Rules.{Fields, end}
use pawaacdrone_fleet_operat.Fleet.{
  DroneStatus, active, decommissioned, status_eq, Drone, NewDrone, DroneChanges, DroneFilter,
  MaintenanceThresholds, ComponentLifecycle, MaintenanceAlert,
}
use pawaacdrone_fleet_operat.Fleet.Maintenance.{default_thresholds, evaluate_maintenance, reports}
use pawaacdrone_fleet_operat.Fleet.Store.{
  DroneStore, StoreError, serial_already_exists, drone_not_found, optimistic_lock, StoreResult, ok,
  err, create, find_by_id, find_all, update, get_lifecycle, save_lifecycle,
}
use pawaacdrone_fleet_operat.Fleet.Publisher.{
  EventTransport, DroneStatusChangedEvent, MaintenanceDomainEvent, FleetEvent, status_changed,
  maintenance_due, Publisher, publish,
}

pub record CreateDroneDto : Type 0 where
  pub serial_number : Str
  pub model : Str
  pub firmware_version : Str
  pub hardware_config : Option Fields
  pub status : Option DroneStatus

pub record UpdateDroneDto : Type 0 where
  pub model : Option Str
  pub firmware_version : Option Str
  pub hardware_config : Option Fields
  pub status : Option DroneStatus
  pub version : Option ℕ

pub record ComponentUsageDto : Type 0 where
  pub battery_cycles_delta : Option Number
  pub motor_hours_delta : Option Number
  pub propeller_replacements_delta : Option Number
  pub thresholds : Option MaintenanceThresholds

-- ConflictException and NotFoundException
pub data HttpError : Type 0 where
  conflict not_found : HttpError

pub data HttpResult {ℓ} (A : Type ℓ) : Type ℓ where
  done : A → HttpResult A
  failed : HttpError → HttpResult A

unfoldable pub to_http : StoreError → HttpError
to_http (serial_already_exists serial_number) = conflict
to_http (optimistic_lock id) = conflict
to_http (drone_not_found id) = not_found

unfoldable pub clamp_non_negative : Number → Number
clamp_non_negative value = if num_lt (int 0) value then value else int 0

abbrev pub new_lifecycle : Str → ComponentLifecycle
new_lifecycle drone_id = record {
  drone_id = drone_id;
  battery_cycles = int 0;
  motor_hours = int 0;
  propeller_replacements = int 0;
  thresholds = default_thresholds;
}

-- `add` is the sum of two floating point numbers.
unfoldable pub next_lifecycle :
    (Number → Number → Number) → Str → ComponentLifecycle → ComponentUsageDto → ComponentLifecycle
unfolding clamp_non_negative
next_lifecycle add drone_id base dto = record {
  drone_id = drone_id;
  battery_cycles =
      clamp_non_negative (add base.battery_cycles (get_or dto.battery_cycles_delta (int 0)));
  motor_hours = clamp_non_negative (add base.motor_hours (get_or dto.motor_hours_delta (int 0)));
  propeller_replacements =
      clamp_non_negative
        (add base.propeller_replacements (get_or dto.propeller_replacements_delta (int 0)));
  thresholds = get_or dto.thresholds base.thresholds;
}

abbrev pub changes_of : UpdateDroneDto → DroneChanges
changes_of dto = record {
  serial_number = none;
  model = dto.model;
  firmware_version = dto.firmware_version;
  hardware_config = dto.hardware_config;
  status = dto.status;
}

-- The alerts of `after` about components that `before` has none about.
unfoldable pub newly_due : List MaintenanceAlert → List MaintenanceAlert → List MaintenanceAlert
unfolding reports
newly_due before after = filter (λ alert. not (reports alert.component before)) after

module _ (transport : EventTransport) where
  pub record World : Type 0 where
    pub store : DroneStore
    pub publisher : Publisher transport

  abbrev pub create_result : World → StoreResult (DroneStore × Drone) → World × HttpResult Drone
  create_result w (err e) = (w, failed (to_http e))
  create_result w (ok (store, drone)) =
      (record { store = store; publisher = w.publisher }, done drone)

  unfoldable pub create_drone : World → Str → Str → CreateDroneDto → World × HttpResult Drone
  unfolding create to_http
  create_drone w id now dto = create_result w (
      create w.store id now (record {
        serial_number = dto.serial_number;
        model = dto.model;
        firmware_version = dto.firmware_version;
        hardware_config = get_or dto.hardware_config end;
        status = get_or dto.status active;
      }))

  unfoldable pub get_drone : World → Str → HttpResult Drone
  get_drone w id = elim (find_by_id w.store id) [
    | none ↦ failed not_found
    | some drone ↦ done drone
  ]

  unfoldable pub list_drones : World → DroneFilter → List Drone
  list_drones w query = find_all w.store query

  abbrev pub status_event : Drone → Drone → FleetEvent
  status_event previous updated = status_changed (record {
    drone_id = updated.id;
    previous_status = previous.status;
    status = updated.status;
    version = updated.version;
    ts = updated.updated_at;
  })

  abbrev pub announced : World → Drone → StoreResult (DroneStore × Drone) → World × HttpResult Drone
  announced w previous (err e) = (w, failed (to_http e))
  announced w previous (ok (store, updated)) =
      let sent = (publish transport w.publisher (status_event previous updated)).0 in
      (
        record {
          store = store;
          publisher = if status_eq updated.status previous.status then w.publisher else sent;
        },
        done updated,
      )

  abbrev pub update_previous :
      World → Str → UpdateDroneDto → Str → Option Drone → World × HttpResult Drone
  update_previous w id dto now none = (w, failed not_found)
  update_previous w id dto now (some previous) =
      announced w previous (update w.store id dto.version (changes_of dto) now)

  unfoldable pub update_drone : World → Str → UpdateDroneDto → Str → World × HttpResult Drone
  unfolding to_http
  update_drone w id dto now = update_previous w id dto now (find_by_id w.store id)

  unfoldable pub decommission_drone : World → Str → Str → World × HttpResult Drone
  decommission_drone w id now =
      update_drone w id
        (record {
          model = none;
          firmware_version = none;
          hardware_config = none;
          status = some decommissioned;
          version = none;
        })
        now

  -- One `publishMaintenanceDue` after the other; the clock reads the same for all of them.
  unfoldable pub publish_due :
      Publisher transport → Str → Str → List MaintenanceAlert → Publisher transport
  publish_due p ts drone_id [] = p
  publish_due p ts drone_id (alert ∷ alerts) =
      publish_due
        (publish transport p
          (maintenance_due (record { ts = ts; drone_id = drone_id; payload = alert }))).0
        ts drone_id alerts

  abbrev pub record_found :
      World
      → (Number → Number → Number)
      → Str
      → Str
      → ComponentUsageDto
      → World × HttpResult ComponentLifecycle
  record_found w add now drone_id dto =
      let base = get_or (get_lifecycle w.store drone_id) (new_lifecycle drone_id) in
      let next = next_lifecycle add drone_id base dto in
      (
        record {
          store = save_lifecycle w.store next;
          publisher =
              publish_due w.publisher now drone_id
                (newly_due (evaluate_maintenance base) (evaluate_maintenance next));
        },
        done next,
      )

  unfoldable pub record_component_usage :
      World
      → (Number → Number → Number)
      → Str
      → Str
      → ComponentUsageDto
      → World × HttpResult ComponentLifecycle
  record_component_usage w add now drone_id dto = elim (find_by_id w.store drone_id) [
    | none ↦ (w, failed not_found)
    | some drone ↦ record_found w add now drone_id dto
  ]

  unfoldable pub maintenance_of : World → Str → HttpResult (List MaintenanceAlert)
  maintenance_of w drone_id = elim (get_lifecycle w.store drone_id) [
    | some lifecycle ↦ done (evaluate_maintenance lifecycle)
    | none ↦ elim (find_by_id w.store drone_id) [ none ↦ failed not_found | some drone ↦ done [] ]
  ]
