-- ===== src/Alerts/Ports.antt =====
-- What services/alert-notification/src/alerts/escalation.service.ts relies on: the entities, the
-- repository of alerts (the database behind TypeORM) and the timer port of escalation.timer.ts.
use pawaacdrone_fleet_operat.Common.{
  ℕ, ◌≤◌, ◌≡◌, ◌≢◌, [], ◌∷◌, List, Option, none, some, Str, ◌===◌, if◌then◌else◌, All, Some,
}
use pawaacdrone_fleet_operat.Alerts.{AlertStatus, AlertSeverity, Channel}

pub record AlertEntity : Type 0 where
  pub id : Str
  pub rule_id : Str
  pub severity : AlertSeverity
  pub status : AlertStatus
  pub escalation_level : ℕ
  pub created_at : ℕ
  pub acknowledged_at : Option ℕ
  pub acknowledged_by : Option Str

-- The fields of an alert rule that the escalation reads.
pub record AlertRuleEntity : Type 0 where
  pub rule_id : Str
  pub channels : List Channel
  pub escalation_chain : List Str
  pub escalation_interval_min : ℕ

pub record DueTimer : Type 0 where
  pub alert_id : Str
  pub due_at : ℕ

-- No alert is listed twice.
abbrev pub Distinct : List DueTimer → Type 0
Distinct [] = Unit
Distinct (e ∷ es) = All (λ f. f.alert_id ≢ e.alert_id) es × Distinct es

-- `findOne` by id and `save`, an upsert by id.
pub record Repository : Type 1 where
  pub Rows : Type 0
  pub find_one : Rows → Str → Option AlertEntity
  pub save : Rows → AlertEntity → Rows
  pub find_one-save :
      (r : Rows) (a : AlertEntity) (j : Str)
      → find_one (save r a) j ≡ (if a.id === j then some a else find_one r j)
  pub find_one-id : (r : Rows) (j : Str) (a : AlertEntity) → find_one r j ≡ some a → a.id ≡ j

-- The contract of `EscalationTimerPort`; `score` is the due time stored for an alert.
pub record TimerPort : Type 1 where
  pub Timers : Type 0
  pub score : Timers → Str → Option ℕ
  pub schedule : Timers → Str → ℕ → Timers
  pub cancel : Timers → Str → Timers
  pub due_entries : Timers → ℕ → List DueTimer
  pub score-schedule :
      (t : Timers) (k : Str) (d : ℕ) (j : Str)
      → score (schedule t k d) j ≡ (if k === j then some d else score t j)
  pub score-cancel :
      (t : Timers) (k j : Str) → score (cancel t k) j ≡ (if k === j then none else score t j)
  pub due_entries-sound :
      (t : Timers) (now : ℕ)
      → All (λ e. (score t e.alert_id ≡ some e.due_at) × (e.due_at ≤ now)) (due_entries t now)
  pub due_entries-distinct : (t : Timers) (now : ℕ) → Distinct (due_entries t now)
  pub due_entries-complete :
      (t : Timers) (now : ℕ) (k : Str) (d : ℕ)
      → score t k ≡ some d
      → d ≤ now
      → Some (λ e. (e.alert_id ≡ k) × (e.due_at ≡ d)) (due_entries t now)
