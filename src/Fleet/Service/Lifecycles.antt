-- ===== src/Fleet/Service/Lifecycles.antt =====
-- How usage grows a lifecycle, and what becomes due by it.
use pawaacdrone_fleet_operat.Common.{
  ◌≡◌, refl, ap, ◌∙◌, nan, infinity, neg_infinity, ratio, pos, negsuc, Bool, true, false, none,
  some, Option, Str, if◌then◌else◌, Number, get_or, num_le, int, num_lt, arith, List, [], ◌∷◌, not,
  ◌&&◌, ◌||◌, All,
}
use pawaacdrone_fleet_operat.Fleet.{
  ComponentLifecycle, MaintenanceComponent, battery, motor, propeller, MaintenanceAlert,
}
use pawaacdrone_fleet_operat.Fleet.Maintenance.{
  default_thresholds, IsAlertOf, evaluate_maintenance, evaluate_maintenance_lem, run_checks,
  reports, component_eq, counter_of, threshold_of,
}
use pawaacdrone_fleet_operat.Fleet.Service.{
  ComponentUsageDto, newly_due, next_lifecycle, clamp_non_negative,
}

-- The counters of the next lifecycle are never negative, whatever the sum gives.
clamp_non_negative-le : (x : Number) → num_le (int 0) (clamp_non_negative x) ≡ true
unfolding clamp_non_negative num_le num_lt
clamp_non_negative-le nan = refl
clamp_non_negative-le infinity = refl
clamp_non_negative-le neg_infinity = refl
clamp_non_negative-le (ratio (pos a) b) = ground arith
clamp_non_negative-le (ratio (negsuc a) b) = ground arith

component_eq_sound : (a b : MaintenanceComponent) → component_eq a b ≡ true → a ≡ b
unfolding component_eq
component_eq_sound battery battery h = refl
component_eq_sound motor motor h = refl
component_eq_sound propeller propeller h = refl
component_eq_sound battery motor h = absurd (ground arith)
component_eq_sound battery propeller h = absurd (ground arith)
component_eq_sound motor battery h = absurd (ground arith)
component_eq_sound motor propeller h = absurd (ground arith)
component_eq_sound propeller battery h = absurd (ground arith)
component_eq_sound propeller motor h = absurd (ground arith)

reports-if :
    (c : MaintenanceComponent) (b : Bool) (a : MaintenanceAlert) (alerts : List MaintenanceAlert)
    → reports c (if b then a ∷ alerts else alerts)
      ≡ ((b && component_eq a.component c) || reports c alerts)
unfolding reports
reports-if c true a alerts = refl
reports-if c false a alerts = refl

only_if :
    (same seen known rest : Bool)
    → (same ≡ true → seen ≡ known)
    → ((not seen && same) || (rest && not known)) ≡ ((same || rest) && not known)
only_if true seen known rest h = ground (arith, h refl)
only_if false seen known rest h = ground arith

reports-newly_due :
    (c : MaintenanceComponent) (before alerts : List MaintenanceAlert)
    → reports c (newly_due before alerts) ≡ (reports c alerts && not (reports c before))
unfolding newly_due reports
reports-newly_due c before [] = refl
reports-newly_due c before (a ∷ alerts) =
    reports-if c (not (reports a.component before)) a (newly_due before alerts)
    ∙ ap (λ b. (not (reports a.component before) && component_eq a.component c) || b)
        (reports-newly_due c before alerts)
    ∙ only_if (component_eq a.component c) (reports a.component before) (reports c before)
        (reports c alerts) (λ h. ap (λ x. reports x before) (component_eq_sound a.component c h))

-- The usage that is reported for a component.
abbrev pub delta_of : ComponentUsageDto → MaintenanceComponent → Number
delta_of dto battery = get_or dto.battery_cycles_delta (int 0)
delta_of dto motor = get_or dto.motor_hours_delta (int 0)
delta_of dto propeller = get_or dto.propeller_replacements_delta (int 0)

-- The lifecycle that is stored for a drone, or one with no usage and the default thresholds.
abbrev pub lifecycle_or_new : Str → Option ComponentLifecycle → ComponentLifecycle
lifecycle_or_new drone_id none = record {
  drone_id = drone_id;
  battery_cycles = int 0;
  motor_hours = int 0;
  propeller_replacements = int 0;
  thresholds = default_thresholds;
}
lifecycle_or_new drone_id (some lifecycle) = lifecycle

-- The lifecycle after the usage: each counter has grown by its delta, but is 0 where the sum is
-- not positive.
pub record Grown (add : Number → Number → Number) (drone_id : Str) (base : ComponentLifecycle)
    (dto : ComponentUsageDto) (next : ComponentLifecycle) : Type 0 where
  pub drone : next.drone_id ≡ drone_id
  pub thresholds : next.thresholds ≡ get_or dto.thresholds base.thresholds
  pub counters :
      (c : MaintenanceComponent)
      → let sum = add (counter_of base c) (delta_of dto c) in
        counter_of next c ≡ (if num_lt (int 0) sum then sum else int 0)
  pub not_negative : (c : MaintenanceComponent) → num_le (int 0) (counter_of next c) ≡ true

counter_of-le :
    (add : Number → Number → Number) (id : Str) (base : ComponentLifecycle)
    (dto : ComponentUsageDto) (c : MaintenanceComponent)
    → num_le (int 0) (counter_of (next_lifecycle add id base dto) c) ≡ true
unfolding next_lifecycle
counter_of-le add id base dto battery = clamp_non_negative-le _
counter_of-le add id base dto motor = clamp_non_negative-le _
counter_of-le add id base dto propeller = clamp_non_negative-le _

pub next_lifecycle-Grown :
    (add : Number → Number → Number) (id : Str) (base : ComponentLifecycle)
    (dto : ComponentUsageDto)
    → Grown add id base dto (next_lifecycle add id base dto)
unfolding next_lifecycle clamp_non_negative
next_lifecycle-Grown add id base dto = record {
  drone = refl;
  thresholds = refl;
  counters = grown;
  not_negative = counter_of-le add id base dto;
}
  where
    grown :
        (c : MaintenanceComponent)
        → let sum = add (counter_of base c) (delta_of dto c) in
          counter_of (next_lifecycle add id base dto) c
          ≡ (if num_lt (int 0) sum then sum else int 0)
    grown battery = refl
    grown motor = refl
    grown propeller = refl

-- Each component has at most one alert.
abbrev pub OneEach : List MaintenanceAlert → Type 0
OneEach [] = Unit
OneEach (a ∷ alerts) = (reports a.component alerts ≡ false) × OneEach alerts

-- The alerts about what has become due: each of them is about the new lifecycle, and they are about
-- the components whose counter has reached its threshold now and had not before, one about each.
pub record NewlyDue (base next : ComponentLifecycle) (alerts : List MaintenanceAlert) : Type 0 where
  pub true_ones : All (IsAlertOf next) alerts
  pub one_each : OneEach alerts
  pub exact :
      (c : MaintenanceComponent)
      → reports c alerts ≡ (
          num_le (threshold_of next c) (counter_of next c)
          && not (num_le (threshold_of base c) (counter_of base c)))

newly_due-All :
    (P : MaintenanceAlert → Type 0) (before alerts : List MaintenanceAlert)
    → All P alerts
    → All P (newly_due before alerts)
unfolding newly_due
newly_due-All P before [] h = tt
newly_due-All P before (a ∷ alerts) (h, hs) = ground (arith, newly_due-All P before alerts hs)

newly_due-OneEach :
    (before alerts : List MaintenanceAlert) → OneEach alerts → OneEach (newly_due before alerts)
unfolding newly_due
newly_due-OneEach before [] h = tt
newly_due-OneEach before (a ∷ alerts) (h, hs) =
    ground (arith, newly_due-OneEach before alerts hs, reports-newly_due a.component before alerts)

evaluate_maintenance-OneEach : (l : ComponentLifecycle) → OneEach (evaluate_maintenance l)
unfolding evaluate_maintenance run_checks reports component_eq
evaluate_maintenance-OneEach l = ground arith

pub newly_due-NewlyDue :
    (base next : ComponentLifecycle)
    → NewlyDue base next (newly_due (evaluate_maintenance base) (evaluate_maintenance next))
newly_due-NewlyDue base next =
    let before = evaluate_maintenance base in
    let after = evaluate_maintenance next in
    record {
      true_ones = newly_due-All (IsAlertOf next) before after (evaluate_maintenance_lem next).1;
      one_each = newly_due-OneEach before after (evaluate_maintenance-OneEach next);
      exact = λ c.
          reports-newly_due c before after
          ∙ ap (λ b. b && not (reports c before)) ((evaluate_maintenance_lem next).0 c)
          ∙ ap (λ b. num_le (threshold_of next c) (counter_of next c) && not b)
              ((evaluate_maintenance_lem base).0 c);
    }
