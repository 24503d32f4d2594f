-- ===== src/Fleet/Maintenance.antt =====
-- services/fleet-registry/src/drones/maintenance.ts
use pawaacdrone_fleet_operat.Common.{
  ◌≡◌, refl, Bool, true, false, ◌||◌, List, [], ◌∷◌, if◌then◌else◌, Number, int, num_le, num_lt,
  All, arith,
}
use pawaacdrone_fleet_operat.Fleet.{
  MaintenanceThresholds, ComponentLifecycle, MaintenanceComponent, battery, motor, propeller, due,
  overdue, MaintenanceAlert,
}

abbrev pub default_thresholds : MaintenanceThresholds
default_thresholds = record {
  max_battery_cycles = int 500;
  max_motor_hours = int 1000;
  max_propeller_life_hours = int 200;
}

abbrev pub Check : Type 0
Check = MaintenanceComponent × Number × Number

abbrev pub checks_of : ComponentLifecycle → List Check
checks_of l =
    (battery, l.battery_cycles, l.thresholds.max_battery_cycles)
    ∷ (motor, l.motor_hours, l.thresholds.max_motor_hours)
    ∷ (propeller, l.propeller_replacements, l.thresholds.max_propeller_life_hours)
    ∷ []

unfoldable pub run_checks : ComponentLifecycle → List Check → List MaintenanceAlert
run_checks l [] = []
run_checks l ((component, current_value, threshold) ∷ checks) =
    let rest = run_checks l checks in
    if num_le threshold current_value
    then record {
      drone_id = l.drone_id;
      component = component;
      status = if num_lt threshold current_value then overdue else due;
      current_value = current_value;
      threshold = threshold;
    }
      ∷ rest
    else rest

unfoldable pub evaluate_maintenance : ComponentLifecycle → List MaintenanceAlert
unfolding run_checks
evaluate_maintenance l = run_checks l (checks_of l)

unfoldable pub component_eq : MaintenanceComponent → MaintenanceComponent → Bool
component_eq battery battery = true
component_eq motor motor = true
component_eq propeller propeller = true
component_eq _ _ = false

-- `alerts.some((a) => a.component === component)`
unfoldable pub reports : MaintenanceComponent → List MaintenanceAlert → Bool
unfolding component_eq
reports component [] = false
reports component (a ∷ alerts) = component_eq a.component component || reports component alerts

abbrev pub counter_of : ComponentLifecycle → MaintenanceComponent → Number
counter_of l battery = l.battery_cycles
counter_of l motor = l.motor_hours
counter_of l propeller = l.propeller_replacements

abbrev pub threshold_of : ComponentLifecycle → MaintenanceComponent → Number
threshold_of l battery = l.thresholds.max_battery_cycles
threshold_of l motor = l.thresholds.max_motor_hours
threshold_of l propeller = l.thresholds.max_propeller_life_hours

-- What an alert about the lifecycle says.
pub record IsAlertOf (l : ComponentLifecycle) (a : MaintenanceAlert) : Type 0 where
  pub drone : a.drone_id ≡ l.drone_id
  pub value : a.current_value ≡ counter_of l a.component
  pub limit : a.threshold ≡ threshold_of l a.component
  pub reached : num_le a.threshold a.current_value ≡ true
  pub status : a.status ≡ (if num_lt a.threshold a.current_value then overdue else due)

All-if :
    (P : MaintenanceAlert → Type 0) (b : Bool) (a : MaintenanceAlert) (rest : List MaintenanceAlert)
    → (b ≡ true → P a)
    → All P rest
    → All P (if b then a ∷ rest else rest)
All-if P true a rest h k = (h refl, k)
All-if P false a rest h k = k

run_checks-IsAlertOf :
    (l : ComponentLifecycle) (checks : List Check)
    → All (λ c. (c.1 ≡ counter_of l c.0) × (c.2 ≡ threshold_of l c.0)) checks
    → All (IsAlertOf l) (run_checks l checks)
unfolding run_checks
run_checks-IsAlertOf l [] h = tt
run_checks-IsAlertOf l ((component, current_value, threshold) ∷ checks) ((e, f), h) =
    All-if (IsAlertOf l) (num_le threshold current_value) _ _
      (λ r. record { drone = refl; value = e; limit = f; reached = r; status = refl })
      (run_checks-IsAlertOf l checks h)

reports-evaluate_maintenance :
    (l : ComponentLifecycle) (c : MaintenanceComponent)
    → reports c (evaluate_maintenance l) ≡ num_le (threshold_of l c) (counter_of l c)
unfolding evaluate_maintenance reports run_checks component_eq
reports-evaluate_maintenance l battery = ground arith
reports-evaluate_maintenance l motor = ground arith
reports-evaluate_maintenance l propeller = ground arith

-- Each component is reported exactly if its counter has reached its threshold, and each alert names
-- the drone, the counter and the threshold of its component, with status overdue exactly above it.
pub evaluate_maintenance_lem :
    (l : ComponentLifecycle)
    → ((c : MaintenanceComponent)
        → reports c (evaluate_maintenance l) ≡ num_le (threshold_of l c) (counter_of l c))
      × All (IsAlertOf l) (evaluate_maintenance l)
unfolding evaluate_maintenance
evaluate_maintenance_lem l = (
  reports-evaluate_maintenance l,
  run_checks-IsAlertOf l (checks_of l) ((refl, refl), ((refl, refl), ((refl, refl), tt))),
)
