-- ===== src/Fleet/Service/Usage.antt =====
-- What the recording of usage stores and publishes.
use pawaacdrone_fleet_operat.Common.{
  ◌≡◌, ◌≢◌, inl, inr, refl, subst, none, some, Option, Str, Option-cases, Number, get_or,
  get-put_self, get-put_other, map, List, [], ◌∷◌,
}
use pawaacdrone_fleet_operat.Fleet.{Drone, ComponentLifecycle, MaintenanceAlert}
use pawaacdrone_fleet_operat.Fleet.Maintenance.{evaluate_maintenance}
use pawaacdrone_fleet_operat.Fleet.Store.{find_by_id, get_lifecycle, save_lifecycle}
use pawaacdrone_fleet_operat.Fleet.Publisher.{
  EventTransport, FleetEvent, Publisher, publish, maintenance_due,
}
use pawaacdrone_fleet_operat.Fleet.Service.{
  ComponentUsageDto, newly_due, World, HttpResult, done, failed, not_found, next_lifecycle,
  new_lifecycle, record_found, record_component_usage, publish_due,
}
use pawaacdrone_fleet_operat.Fleet.Service.Lifecycles.{
  lifecycle_or_new, Grown, NewlyDue, next_lifecycle-Grown, newly_due-NewlyDue,
}

module _ (transport : EventTransport) where
  -- The publisher after events, one after the other.
  abbrev pub published : Publisher transport → List FleetEvent → Publisher transport
  published p [] = p
  published p (e ∷ events) = published (publish transport p e).0 events

  abbrev pub event_of : Str → Str → MaintenanceAlert → FleetEvent
  event_of now drone_id alert =
      maintenance_due (record { ts = now; drone_id = drone_id; payload = alert })

  publish_due-published :
      (p : Publisher transport) (now drone_id : Str) (alerts : List MaintenanceAlert)
      → publish_due transport p now drone_id alerts
        ≡ published p (map (event_of now drone_id) alerts)
  unfolding publish_due
  publish_due-published p now drone_id [] = refl
  publish_due-published p now drone_id (a ∷ alerts) =
      publish_due-published (publish transport p (event_of now drone_id a)).0 now drone_id alerts

  -- The answer to a recording, and the store and the publisher that it leaves.
  pub data Recorded (w : World transport) (add : Number → Number → Number) (now drone_id : Str)
      (dto : ComponentUsageDto) (r : World transport × HttpResult ComponentLifecycle) : Type 0 where
    unknown :
        find_by_id w.store drone_id ≡ none
        → r ≡ (w, failed not_found)
        → Recorded w add now drone_id dto r
    recorded :
        (drone : Drone) (next : ComponentLifecycle) (alerts : List MaintenanceAlert)
        → find_by_id w.store drone_id ≡ some drone
        → Grown add drone_id (lifecycle_or_new drone_id (get_lifecycle w.store drone_id)) dto next
        → NewlyDue (lifecycle_or_new drone_id (get_lifecycle w.store drone_id)) next alerts
        → r.1 ≡ done next
        → get_lifecycle r.0.store drone_id ≡ some next
        → ((j : Str) → drone_id ≢ j → get_lifecycle r.0.store j ≡ get_lifecycle w.store j)
        → ((j : Str) → find_by_id r.0.store j ≡ find_by_id w.store j)
        → r.0.publisher ≡ published w.publisher (map (event_of now drone_id) alerts)
        → Recorded w add now drone_id dto r

  base_of :
      (drone_id : Str) (o : Option ComponentLifecycle)
      → get_or o (new_lifecycle drone_id) ≡ lifecycle_or_new drone_id o
  base_of drone_id none = refl
  base_of drone_id (some l) = refl

  record_found-Recorded :
      (w : World transport) (add : Number → Number → Number) (now drone_id : Str)
      (dto : ComponentUsageDto) (drone : Drone)
      → find_by_id w.store drone_id ≡ some drone
      → Recorded w add now drone_id dto (record_found transport w add now drone_id dto)
  unfolding save_lifecycle get_lifecycle find_by_id next_lifecycle
  record_found-Recorded w add now drone_id dto drone e =
      let base = get_or (get_lifecycle w.store drone_id) (new_lifecycle drone_id) in
      let next = next_lifecycle add drone_id base dto in
      let same = base_of drone_id (get_lifecycle w.store drone_id) in
      recorded drone next (newly_due (evaluate_maintenance base) (evaluate_maintenance next)) e
        (subst (λ b. Grown add drone_id b dto next) same
          (next_lifecycle-Grown add drone_id base dto))
        (subst
          (λ b. NewlyDue b next (newly_due (evaluate_maintenance base) (evaluate_maintenance next)))
          same (newly_due-NewlyDue base next))
        refl (get-put_self drone_id next w.store.lifecycles)
        (λ j q. get-put_other drone_id j next w.store.lifecycles q) (λ j. refl)
        (publish_due-published w.publisher now drone_id _)

  -- Usage of an unknown drone is answered 404 without effect. Else the drone's lifecycle is stored and
  -- returned with each counter grown by its delta, and 0 where the sum is not positive; no drone and
  -- no other lifecycle changes; and one event is published for each component whose counter has
  -- reached its threshold now and had not before, and no other event.
  pub record_component_usage-Recorded :
      (w : World transport) (add : Number → Number → Number) (now drone_id : Str)
      (dto : ComponentUsageDto)
      → Recorded w add now drone_id dto (record_component_usage transport w add now drone_id dto)
  unfolding record_component_usage
  record_component_usage-Recorded w add now drone_id dto =
      elim (Option-cases (find_by_id w.store drone_id)) [
        | inl e ↦ unknown e (rw (e, record_component_usage) refl)
        | inr (drone, e) ↦
            rw (e, record_component_usage) (record_found-Recorded w add now drone_id dto drone e)
      ]
