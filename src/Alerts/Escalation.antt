-- ===== src/Alerts/Escalation.antt =====
-- The decisions of services/alert-notification/src/alerts/escalation.logic.ts.
pub mod Laws
use pawaacdrone_fleet_operat.Common.{
  ℕ, ◌+◌, Bool, true, false, ◌||◌, not, List, [], ◌∷◌, Option, none, some, ltb, leb, if◌then◌else◌,
}
use pawaacdrone_fleet_operat.Alerts.{
  AlertStatus, opened, acknowledged, escalated, closed, status_eq,
}

unfoldable pub allowed_targets : AlertStatus → List AlertStatus
allowed_targets opened = acknowledged ∷ escalated ∷ closed ∷ []
allowed_targets escalated = acknowledged ∷ closed ∷ []
allowed_targets acknowledged = closed ∷ []
allowed_targets closed = []

-- `includes`
unfoldable pub includes : List AlertStatus → AlertStatus → Bool
includes [] s = false
includes (t ∷ ts) s = status_eq t s || includes ts s

unfoldable pub legal_transition : AlertStatus → AlertStatus → Bool
unfolding status_eq allowed_targets includes
legal_transition from to = if status_eq from to then true else includes (allowed_targets from) to

pub data AckDecision : Type 0 where
  acknowledge : AlertStatus → AckDecision
  noop illegal : AckDecision

unfoldable pub decide_acknowledge : AlertStatus → AckDecision
unfolding legal_transition
decide_acknowledge status =
    if status_eq status acknowledged
    then noop
    else if legal_transition status acknowledged
    then acknowledge acknowledged
    else illegal

-- Times and intervals are whole milliseconds.
pub record TickInput : Type 0 where
  pub status : AlertStatus
  pub escalation_level : ℕ
  pub current_due_at : ℕ
  pub chain_length : ℕ
  pub interval_ms : ℕ
  pub now : ℕ

pub record NextStep : Type 0 where
  pub contact_index : ℕ
  pub next_level : ℕ
  pub next_status : AlertStatus
  pub next_due_at : Option ℕ
  pub terminal : Bool

pub data TickDecision : Type 0 where
  skip : Bool → TickDecision
  escalate : NextStep → TickDecision
  exhausted : AlertStatus → TickDecision

unfoldable pub next_step : TickInput → Bool → NextStep
next_step i terminal = record {
  contact_index = i.escalation_level;
  next_level = i.escalation_level + 1;
  next_status = if terminal then escalated else opened;
  next_due_at = if terminal then none else some (i.current_due_at + i.interval_ms);
  terminal = terminal;
}

unfoldable pub decide_tick : TickInput → TickDecision
unfolding next_step status_eq
decide_tick i =
    if not (status_eq i.status opened)
    then skip true
    else if ltb i.now i.current_due_at
    then skip false
    else if leb i.chain_length i.escalation_level
    then exhausted escalated
    else escalate (next_step i (leb i.chain_length (i.escalation_level + 1)))
