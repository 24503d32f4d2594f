-- ===== src/Fleet/Publisher.antt =====
-- services/fleet-registry/src/events/resilient-event-publisher.ts over the transport of
-- events/event-transport.ts. The background timer calls `flush`.
pub mod Conservation
use pawaacdrone_fleet_operat.Common.{
  ℕ, ◌+◌, ◌≡◌, Bool, true, false, not, ◌&&◌, List, [], ◌∷◌, ◌++◌, Option, none, some, Str, codes,
  if◌then◌else◌, ltb,
}
use pawaacdrone_fleet_operat.Fleet.{DroneStatus, MaintenanceAlert}

pub record DroneStatusChangedEvent : Type 0 where
  pub drone_id : Str
  pub previous_status : DroneStatus
  pub status : DroneStatus
  pub version : ℕ
  pub ts : Str

-- MaintenanceDomainEvent, whose kind is always 'maintenance'
pub record MaintenanceDomainEvent : Type 0 where
  pub ts : Str
  pub drone_id : Str
  pub payload : MaintenanceAlert

-- An event with its payload; `event_name` is the name it is emitted under.
pub data FleetEvent : Type 0 where
  status_changed : DroneStatusChangedEvent → FleetEvent
  maintenance_due : MaintenanceDomainEvent → FleetEvent

abbrev pub event_name : FleetEvent → Str
event_name (status_changed e) = codes "drone.status-changed"
event_name (maintenance_due e) = codes "drone.maintenance-due"

-- `emit` resolves (true) or rejects (false); `accepted` is what was delivered, the oldest last.
pub record EventTransport : Type 1 where
  pub State : Type 0
  pub emit : State → Str → FleetEvent → State × Bool
  pub accepted : State → List FleetEvent
  pub accepted-emit :
      (s : State) (name : Str) (e : FleetEvent)
      → accepted (emit s name e).0 ≡ (if (emit s name e).1 then e ∷ accepted s else accepted s)

pub record QueuedEvent : Type 0 where
  pub event : FleetEvent
  pub attempts : ℕ

-- `item.attempts < this.maxRetries`; the default is Number.POSITIVE_INFINITY
abbrev pub may_retry : Option ℕ → ℕ → Bool
may_retry none attempts = true
may_retry (some max_retries) attempts = ltb attempts max_retries

module _ (transport : EventTransport) where
  -- The transport and the queue.
  abbrev pub Publisher : Type 0
  Publisher = transport.State × List QueuedEvent

  -- the item comes back with the attempt counted
  unfoldable pub try_deliver : transport.State → QueuedEvent → transport.State × Bool × QueuedEvent
  try_deliver s item =
      let (s', delivered) = transport.emit s (event_name item.event) item.event in
      (
        s',
        delivered,
        if delivered then item else record { event = item.event; attempts = item.attempts + 1 },
      )

  unfoldable pub publish : Publisher → FleetEvent → Publisher × Bool
  unfolding try_deliver
  publish (s, queue) event =
      let (s', delivered, item) = try_deliver s (record { event = event; attempts = 0 }) in
      ((s', if delivered then queue else queue ++ (item ∷ [])), delivered)

  -- the loop of `flush`, over what was pending
  unfoldable pub flush_pending : Option ℕ → Publisher → List QueuedEvent → Publisher
  unfolding try_deliver
  flush_pending max_retries (s, queue) [] = (s, queue)
  flush_pending max_retries (s, queue) (item ∷ pending) =
      let (s', delivered, tried) = try_deliver s item in
      flush_pending max_retries
        (
          s',
          if not delivered && may_retry max_retries tried.attempts
              then queue ++ (tried ∷ [])
              else queue,
        )
        pending

  unfoldable pub flush : Option ℕ → Publisher → Publisher
  unfolding flush_pending
  flush max_retries (s, queue) = flush_pending max_retries (s, []) queue
