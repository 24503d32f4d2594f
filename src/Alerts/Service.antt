-- ===== src/Alerts/Service.antt =====
-- services/alert-notification/src/alerts/escalation.service.ts. The state is the stored alerts, the
-- armed timers and the log of what was handed to the dispatcher, whose failures are caught and
-- change nothing; a database or Redis failure is not modelled. A handler runs without interruption.
pub mod Steps
pub mod Changes
pub mod History
pub mod Invariant
pub mod Sweep
pub mod Contacts
use pawaacdrone_fleet_operat.Common.{
  ℕ, ◌*◌, ◌+◌, zero, suc, Bool, true, false, ◌||◌, not, List, [], ◌∷◌, ◌++◌, Option, none, some,
  Str, if◌then◌else◌, length, get_elem?, ltb,
}
use pawaacdrone_fleet_operat.Alerts.{Alert, AlertStatus, AlertSeverity, Channel, opened, status_eq}
use pawaacdrone_fleet_operat.Alerts.Escalation.{
  legal_transition, decide_acknowledge, AckDecision, noop, illegal, NextStep, TickDecision,
  TickInput, skip, escalate, exhausted, decide_tick,
}
use pawaacdrone_fleet_operat.Alerts.Ports.{
  AlertEntity, AlertRuleEntity, DueTimer, Repository, TimerPort,
}

pub data ServiceError : Type 0 where
  not_found conflict : Str → ServiceError

pub data Result (A : Type 0) : Type 0 where
  ok : A → Result A
  err : ServiceError → Result A

pub record EscalationAction : Type 0 where
  pub alert_id : Str
  pub from_level : ℕ
  pub to_level : ℕ
  pub contact_id : Option Str
  pub status : AlertStatus
  pub next_due_at : Option ℕ
  pub dispatched : Bool
  pub terminal : Bool

pub record CreateAlertInput : Type 0 where
  pub rule_id : Str
  pub severity : AlertSeverity
  pub escalation_interval_min : ℕ

-- An empty actor is dropped, as a falsy value is.
unfoldable pub truthy_text : Option Str → Option Str
truthy_text none = none
truthy_text (some []) = none
truthy_text (some (c ∷ s)) = some (c ∷ s)

unfoldable pub to_alert : AlertEntity → Alert
unfolding truthy_text
to_alert e = record {
  id = e.id;
  rule_id = e.rule_id;
  severity = e.severity;
  status = e.status;
  escalation_level = e.escalation_level;
  created_at = e.created_at;
  acknowledged_at = e.acknowledged_at;
  acknowledged_by = truthy_text e.acknowledged_by;
}

abbrev pub ms_per_minute : ℕ
ms_per_minute = 60_000

unfoldable pub interval_ms_of : Option ℕ → ℕ
interval_ms_of none = 1 * ms_per_minute
interval_ms_of (some minutes) = (if ltb 0 minutes then minutes else 1) * ms_per_minute

-- `alert.status = to`, refused where the state machine does not permit it
unfoldable pub apply_transition : AlertEntity → AlertStatus → Result AlertEntity
apply_transition alert to =
    if not (legal_transition alert.status to)
    then err (conflict alert.id)
    else ok (record alert { status = to })

-- `rule?.escalationChain ?? []`, `rule?.channels ?? []` and `rule?.escalationIntervalMin`
unfoldable pub chain_of : Option AlertRuleEntity → List Str
chain_of none = []
chain_of (some r) = r.escalation_chain

unfoldable pub channels_of : Option AlertRuleEntity → List Channel
channels_of none = []
channels_of (some r) = r.channels

unfoldable pub interval_min_of : Option AlertRuleEntity → Option ℕ
interval_min_of none = none
interval_min_of (some r) = some r.escalation_interval_min

pub record World (repo : Repository) (port : TimerPort) : Type 0 where
  pub alerts : repo.Rows
  pub timers : port.Timers
  pub sent : List (Alert × List Channel)

module _ (repo : Repository) (port : TimerPort) (find_rule : Str → Option AlertRuleEntity) where
  open repo use {find_one, save}
  open port use {schedule, cancel, due_entries}

  -- `new_id` is the id that the database generates.
  unfoldable pub create_alert :
      World repo port → Str → CreateAlertInput → ℕ → World repo port × Alert
  create_alert w new_id input now =
      let saved : AlertEntity = record {
        id = new_id;
        rule_id = input.rule_id;
        severity = input.severity;
        status = opened;
        escalation_level = 0;
        created_at = now;
        acknowledged_at = none;
        acknowledged_by = none;
      } in
      let due = now + interval_ms_of (some input.escalation_interval_min) in
      (
        record w { alerts = save w.alerts saved; timers = schedule w.timers new_id due },
        to_alert saved,
      )

  unfoldable pub store_acknowledged :
      World repo port → Str → Str → ℕ → Result AlertEntity → World repo port × Result Alert
  store_acknowledged w alert_id user_id now (err e) = (w, err e)
  store_acknowledged w alert_id user_id now (ok moved) =
      let saved = record moved { acknowledged_at = some now; acknowledged_by = some user_id } in
      (
        record w { alerts = save w.alerts saved; timers = cancel w.timers alert_id },
        ok (to_alert saved),
      )

  unfoldable pub acknowledge_found :
      World repo port → Str → Str → ℕ → AlertEntity → AckDecision → World repo port × Result Alert
  unfolding store_acknowledged
  acknowledge_found w alert_id user_id now alert noop = (w, ok (to_alert alert))
  acknowledge_found w alert_id user_id now alert illegal = (w, err (conflict alert_id))
  acknowledge_found w alert_id user_id now alert (AckDecision.acknowledge next_status) =
      store_acknowledged w alert_id user_id now (apply_transition alert next_status)

  unfoldable pub acknowledge : World repo port → Str → Str → ℕ → World repo port × Result Alert
  acknowledge w alert_id user_id now = elim (find_one w.alerts alert_id) [
    | none ↦ (w, err (not_found alert_id))
    | some alert ↦ acknowledge_found w alert_id user_id now alert (decide_acknowledge alert.status)
  ]

  abbrev Outcome : Type 0
  Outcome = World repo port × Result (Option EscalationAction)

  unfoldable pub close_exhausted : World repo port → Str → ℕ → AlertStatus → Outcome
  close_exhausted w alert_id from_level status = (
    record w { timers = cancel w.timers alert_id },
    ok (
        some (record {
          alert_id = alert_id;
          from_level = from_level;
          to_level = from_level;
          contact_id = none;
          status = status;
          next_due_at = none;
          dispatched = false;
          terminal = true;
        })),
  )

  unfoldable pub store_exhausted : World repo port → Str → ℕ → Result AlertEntity → Outcome
  unfolding close_exhausted
  store_exhausted w alert_id from_level (err e) = (w, err e)
  store_exhausted w alert_id from_level (ok moved) =
      close_exhausted (record w { alerts = save w.alerts moved }) alert_id from_level moved.status

  -- the branch `decision.action === 'exhausted'`
  unfoldable pub settle_exhausted : World repo port → Str → AlertEntity → AlertStatus → Outcome
  unfolding store_exhausted close_exhausted
  settle_exhausted w alert_id alert next_status =
      if not (status_eq alert.status next_status)
      then store_exhausted w alert_id alert.escalation_level (apply_transition alert next_status)
      else close_exhausted w alert_id alert.escalation_level alert.status

  unfoldable pub reschedule : port.Timers → Str → Bool → Option ℕ → port.Timers
  reschedule timers alert_id terminal none = cancel timers alert_id
  reschedule timers alert_id terminal (some due) =
      if terminal then cancel timers alert_id else schedule timers alert_id due

  unfoldable pub store_escalated :
      World repo port → Str → ℕ → Option AlertRuleEntity → NextStep → Result AlertEntity → Outcome
  unfolding reschedule
  store_escalated w alert_id from_level rule step (err e) = (w, err e)
  store_escalated w alert_id from_level rule step (ok moved) =
      let saved = record moved { escalation_level = step.next_level } in
      (
        record w {
          alerts = save w.alerts saved;
          sent = w.sent ++ (to_alert saved, channels_of rule) ∷ [];
          timers = reschedule w.timers alert_id step.terminal step.next_due_at;
        },
        ok (
            some (record {
              alert_id = alert_id;
              from_level = from_level;
              to_level = step.next_level;
              contact_id = get_elem? (chain_of rule) step.contact_index;
              status = saved.status;
              next_due_at = step.next_due_at;
              dispatched = true;
              terminal = step.terminal;
            })),
      )

  unfoldable pub settle :
      World repo port → Str → AlertEntity → Option AlertRuleEntity → TickDecision → Outcome
  unfolding settle_exhausted store_escalated
  settle w alert_id alert rule (skip cancel_timer) =
      if cancel_timer
      then (record w { timers = cancel w.timers alert_id }, ok none)
      else (w, ok none)
  settle w alert_id alert rule (exhausted next_status) =
      settle_exhausted w alert_id alert next_status
  settle w alert_id alert rule (escalate step) =
      store_escalated w alert_id alert.escalation_level rule step
        (apply_transition alert step.next_status)

  unfoldable pub tick_input : AlertEntity → ℕ → ℕ → TickInput
  tick_input alert current_due_at now = record {
    status = alert.status;
    escalation_level = alert.escalation_level;
    current_due_at = current_due_at;
    chain_length = length (chain_of (find_rule alert.rule_id));
    interval_ms = interval_ms_of (interval_min_of (find_rule alert.rule_id));
    now = now;
  }

  unfoldable pub process_due_alert : World repo port → Str → ℕ → ℕ → Outcome
  process_due_alert w alert_id current_due_at now = elim (find_one w.alerts alert_id) [
    | none ↦ (record w { timers = cancel w.timers alert_id }, ok none)
    | some alert ↦
        settle w alert_id alert (find_rule alert.rule_id)
          (decide_tick (tick_input alert current_due_at now))
  ]

  -- An exception ends the sweep: what was stored before it stays, the actions are lost.
  unfoldable pub after_entry :
      Outcome
      → World repo port × Result (List EscalationAction)
      → World repo port × Result (List EscalationAction)
  after_entry (w, err e) rest = (w, err e)
  after_entry (w, ok none) rest = rest
  after_entry (w, ok (some action)) (last, ok actions) = (last, ok (action ∷ actions))
  after_entry (w, ok (some action)) (last, err e) = (last, err e)

  -- the loop of `tickEscalations`
  unfoldable pub sweep :
      World repo port → ℕ → List DueTimer → World repo port × Result (List EscalationAction)
  sweep w now [] = (w, ok [])
  sweep w now (entry ∷ due) =
      let done = process_due_alert w entry.alert_id entry.due_at now in
      after_entry done (sweep done.0 now due)

  unfoldable pub tick_escalations :
      World repo port → ℕ → World repo port × Result (List EscalationAction)
  tick_escalations w now = sweep w now (due_entries w.timers now)
