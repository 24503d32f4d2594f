-- ===== src/Fleet/Store.antt =====
-- services/fleet-registry/src/drones: the contract of drone-store.ts and its implementation,
-- in-memory-drone-store.ts. `randomUUID()` and the clock are arguments; a clone is the value itself.
pub mod Agreement
pub mod Consistency
pub mod Locking
use pawaacdrone_fleet_operat.Common.{
  ℕ, ◌+◌, Bool, true, false, not, ◌&&◌, List, [], ◌∷◌, map, Option, none, some, Str, ◌===◌, ◌==◌,
  if◌then◌else◌, Dict, get, put, delete, filter, get_or,
}
use pawaacdrone_fleet_operat.Fleet.{
  DroneStatus, status_eq, Drone, NewDrone, DroneChanges, DroneFilter, ComponentLifecycle,
}

-- SerialAlreadyExistsError, DroneNotFoundError, OptimisticLockError
pub data StoreError : Type 0 where
  serial_already_exists drone_not_found optimistic_lock : Str → StoreError

pub data StoreResult {ℓ} (A : Type ℓ) : Type ℓ where
  ok : A → StoreResult A
  err : StoreError → StoreResult A

pub record DroneStore : Type 0 where
  pub drones : Dict Drone
  pub serials : Dict Str
  pub lifecycles : Dict ComponentLifecycle

abbrev pub empty_store : DroneStore
empty_store = record { drones = []; serials = []; lifecycles = [] }

abbrev pub is_some {ℓ} : {A : Type ℓ} → Option A → Bool
is_some none = false
is_some (some a) = true

abbrev pub new_drone : Str → Str → NewDrone → Drone
new_drone id now input = record {
  id = id;
  serial_number = input.serial_number;
  model = input.model;
  firmware_version = input.firmware_version;
  hardware_config = input.hardware_config;
  status = input.status;
  version = 1;
  created_at = now;
  updated_at = now;
}

unfoldable pub create : DroneStore → Str → Str → NewDrone → StoreResult (DroneStore × Drone)
create store id now input =
    let drone = new_drone id now input in
    if is_some (get input.serial_number store.serials)
    then err (serial_already_exists input.serial_number)
    else ok (
      record {
        drones = put id drone store.drones;
        serials = put drone.serial_number id store.serials;
        lifecycles = store.lifecycles;
      },
      drone,
    )

unfoldable pub find_by_id : DroneStore → Str → Option Drone
find_by_id store id = get id store.drones

abbrev pub values {ℓ} : {V : Type ℓ} → Dict V → List V
values m = map (λ e. e.1) m

abbrev pub keep_status : Option DroneStatus → List Drone → List Drone
keep_status none all = all
keep_status (some status) all = filter (λ d. status_eq d.status status) all

abbrev pub keep_model : Option Str → List Drone → List Drone
keep_model none all = all
keep_model (some model) all = filter (λ d. d.model === model) all

unfoldable pub find_all : DroneStore → DroneFilter → List Drone
find_all store query = keep_model query.model (keep_status query.status (values store.drones))

-- `expectedVersion !== undefined && expectedVersion !== current.version`
abbrev pub is_stale : Option ℕ → Drone → Bool
is_stale none current = false
is_stale (some expected) current = not (expected == current.version)

-- A changed serial number that another entry of the index has.
abbrev pub serial_taken : DroneStore → Drone → Option Str → Bool
serial_taken store current none = false
serial_taken store current (some serial_number) =
    not (serial_number === current.serial_number) && is_some (get serial_number store.serials)

abbrev pub updated_drone : Drone → DroneChanges → Str → Drone
updated_drone current changes now = record {
  id = current.id;
  serial_number = get_or changes.serial_number current.serial_number;
  model = get_or changes.model current.model;
  firmware_version = get_or changes.firmware_version current.firmware_version;
  hardware_config = get_or changes.hardware_config current.hardware_config;
  status = get_or changes.status current.status;
  version = current.version + 1;
  created_at = current.created_at;
  updated_at = now;
}

abbrev pub move_serial : Dict Str → Str → Str → Str → Dict Str
move_serial serials id old new = if new === old then serials else put new id (delete old serials)

abbrev pub update_found :
    DroneStore → Str → Drone → Option ℕ → DroneChanges → Str → StoreResult (DroneStore × Drone)
update_found store id current expected_version changes now =
    let updated = updated_drone current changes now in
    if is_stale expected_version current
    then err (optimistic_lock id)
    else if serial_taken store current changes.serial_number
    then err (serial_already_exists (get_or changes.serial_number current.serial_number))
    else ok (
      record {
        drones = put id updated store.drones;
        serials = move_serial store.serials id current.serial_number updated.serial_number;
        lifecycles = store.lifecycles;
      },
      updated,
    )

abbrev pub update_option :
    DroneStore
    → Str
    → Option Drone
    → Option ℕ
    → DroneChanges
    → Str
    → StoreResult (DroneStore × Drone)
update_option store id none expected_version changes now = err (drone_not_found id)
update_option store id (some current) expected_version changes now =
    update_found store id current expected_version changes now

unfoldable pub update :
    DroneStore → Str → Option ℕ → DroneChanges → Str → StoreResult (DroneStore × Drone)
update store id expected_version changes now =
    update_option store id (get id store.drones) expected_version changes now

unfoldable pub get_lifecycle : DroneStore → Str → Option ComponentLifecycle
get_lifecycle store drone_id = get drone_id store.lifecycles

unfoldable pub save_lifecycle : DroneStore → ComponentLifecycle → DroneStore
save_lifecycle store lifecycle = record {
  drones = store.drones;
  serials = store.serials;
  lifecycles = put lifecycle.drone_id lifecycle store.lifecycles;
}
