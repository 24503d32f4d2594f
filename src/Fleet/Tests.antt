-- ===== src/Fleet/Tests.antt =====
-- A fleet of two drones, and the theorems about the registry at it.
use mathlib.Core.List.{Perm}
use pawaacdrone_fleet_operat.Common.{
  ◌≡◌, refl, true, false, Bool, List, [], ◌∷◌, none, some, codes, Number, int, num_le,
  if◌then◌else◌, ◌===◌, get, put,
}
use pawaacdrone_fleet_operat.Alerts.Rules.{end}
use pawaacdrone_fleet_operat.Fleet.{
  active, maintenance, motor, Drone, NewDrone, DroneChanges, ComponentLifecycle,
  MaintenanceComponent, MaintenanceThresholds, battery, status_eq,
}
use pawaacdrone_fleet_operat.Fleet.Maintenance.{
  default_thresholds, evaluate_maintenance, evaluate_maintenance_lem, reports,
}
use pawaacdrone_fleet_operat.Fleet.Store.{
  DroneStore, empty_store, ok, err, create, update, find_by_id, new_drone, optimistic_lock,
  updated_drone,
}
use pawaacdrone_fleet_operat.Fleet.Store.Consistency.{
  Reach, start, after, created, IsConsistent, Reach-IsConsistent, serials_unique,
}
use pawaacdrone_fleet_operat.Fleet.Store.Locking.{update-stale}
use pawaacdrone_fleet_operat.Fleet.Publisher.{EventTransport, FleetEvent, maintenance_due}
use pawaacdrone_fleet_operat.Fleet.Publisher.Conservation.{
  to_publish, to_flush, run, known, run-conserves,
}
use pawaacdrone_fleet_operat.Fleet.Service.{
  ComponentUsageDto, UpdateDroneDto, record_component_usage, World,
}
use pawaacdrone_fleet_operat.Fleet.Service.Usage.{Recorded, record_component_usage-Recorded}

abbrev worn : ComponentLifecycle
worn = record {
  drone_id = codes "d1";
  battery_cycles = int 500;
  motor_hours = int 10;
  propeller_replacements = int 3;
  thresholds = default_thresholds;
}

evaluate_maintenance_lem_example : reports battery (evaluate_maintenance worn) ≡ true
unfolding num_le
evaluate_maintenance_lem_example = (evaluate_maintenance_lem worn).0 battery

abbrev flown : ComponentUsageDto
flown = record {
  battery_cycles_delta = none;
  motor_hours_delta = some (int 995);
  propeller_replacements_delta = none;
  thresholds = none;
}

-- a sum that is right for whole numbers
abbrev sum_of : Number → Number → Number
sum_of x y = int 1005

abbrev scout : NewDrone
scout = record {
  serial_number = codes "SN-1";
  model = codes "Scout";
  firmware_version = codes "1.0";
  hardware_config = end;
  status = active;
}

abbrev one_drone : DroneStore
one_drone = record {
  drones = (codes "d1", new_drone (codes "d1") (codes "t0") scout) ∷ [];
  serials = (codes "SN-1", codes "d1") ∷ [];
  lifecycles = [];
}

scout_created :
    create empty_store (codes "d1") (codes "t0") scout
    ≡ ok (one_drone, new_drone (codes "d1") (codes "t0") scout)
unfolding create get put
scout_created = refl

fresh : get (codes "d1") empty_store.drones ≡ none
unfolding get
fresh = refl

one_reached : Reach empty_store one_drone
one_reached = after start (created (codes "d1") (codes "t0") scout _ fresh scout_created)

Reach-IsConsistent_example : IsConsistent one_drone
Reach-IsConsistent_example = Reach-IsConsistent one_drone one_reached

scout_found : find_by_id one_drone (codes "d1") ≡ some (new_drone (codes "d1") (codes "t0") scout)
unfolding find_by_id get ◌===◌
scout_found = refl

serials_unique_example :
    (codes "d1" ≡ codes "d1")
    × (new_drone (codes "d1") (codes "t0") scout ≡ new_drone (codes "d1") (codes "t0") scout)
serials_unique_example =
    serials_unique one_drone (codes "d1") (codes "d1") _ _ one_reached scout_found scout_found refl

abbrev to_maintenance : DroneChanges
to_maintenance = record {
  serial_number = none;
  model = none;
  firmware_version = none;
  hardware_config = none;
  status = some maintenance;
}

abbrev serviced : Drone
serviced = updated_drone (new_drone (codes "d1") (codes "t0") scout) to_maintenance (codes "t1")

abbrev one_serviced : DroneStore
one_serviced = record {
  drones = (codes "d1", serviced) ∷ [];
  serials = (codes "SN-1", codes "d1") ∷ [];
  lifecycles = [];
}

scout_serviced :
    update one_drone (codes "d1") (some 1) to_maintenance (codes "t1") ≡ ok (one_serviced, serviced)
unfolding update get put ◌===◌
scout_serviced = refl

update-stale_example :
    update one_serviced (codes "d1") (some 1) to_maintenance (codes "t2")
    ≡ err (optimistic_lock (codes "d1"))
update-stale_example =
    update-stale one_drone one_serviced one_serviced (codes "d1") 1 to_maintenance to_maintenance
      (codes "t1") (codes "t2") serviced scout_serviced start

-- A transport that refuses the first event and accepts all others.
abbrev flaky : EventTransport
flaky = record {
  State = Bool × List FleetEvent;
  emit = λ s name e. ((true, if s.0 then e ∷ s.1 else s.1), s.0);
  accepted = λ s. s.1;
  accepted-emit = λ s name e. refl;
}

abbrev worn_event : FleetEvent
worn_event = maintenance_due (record {
  ts = codes "t1";
  drone_id = codes "d1";
  payload = record {
    drone_id = codes "d1";
    component = battery;
    status = pawaacdrone_fleet_operat.Fleet.due;
    current_value = int 500;
    threshold = int 500;
  };
})

run-conserves_example :
    Perm
      (known flaky (run flaky ((false, []), []) (to_publish worn_event ∷ to_flush ∷ [])))
      (worn_event ∷ [])
run-conserves_example =
    run-conserves flaky ((false, []), []) (to_publish worn_event ∷ to_flush ∷ [])

abbrev registry : World flaky
registry = record { store = one_drone; publisher = ((true, []), []) }

abbrev maintain : UpdateDroneDto
maintain = record {
  model = none;
  firmware_version = none;
  hardware_config = none;
  status = some maintenance;
  version = some 1;
}

-- The motor of the drone reaches its threshold.
abbrev worn_registry : World flaky
worn_registry = record {
  store = record one_drone { lifecycles = (codes "d1", worn) ∷ [] };
  publisher = ((true, []), []);
}

record_component_usage-Recorded_example :
    Recorded flaky worn_registry sum_of
      (codes "t2")
      (codes "d1")
      flown
      (record_component_usage flaky worn_registry sum_of (codes "t2") (codes "d1") flown)
record_component_usage-Recorded_example =
    record_component_usage-Recorded flaky worn_registry sum_of (codes "t2") (codes "d1") flown
