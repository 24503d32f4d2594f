-- ===== src/Alerts/Service/Steps.antt =====
-- What one due entry does to the stored alerts, the timers and the dispatch log.
use pawaacdrone_fleet_operat.Common.{
  ℕ, ◌<◌, ◌≤◌, ◌≡◌, ◌≢◌, Option, none, some, Str, arith, Option-cases, length, true, false, inl,
  inr,
}
use pawaacdrone_fleet_operat.Alerts.{opened, escalated, AlertStatus}
use pawaacdrone_fleet_operat.Alerts.Escalation.{
  legal_transition, TickDecision, skip, escalate, exhausted, NextStep,
}
use pawaacdrone_fleet_operat.Alerts.Escalation.Laws.{Legal, IsStep, Decides, decide_tick-Decides}
use pawaacdrone_fleet_operat.Alerts.Ports.{AlertEntity, AlertRuleEntity, Repository, TimerPort}
use pawaacdrone_fleet_operat.Alerts.Service.{
  World, Result, ok, EscalationAction, chain_of, apply_transition, settle, settle_exhausted,
  close_exhausted, store_escalated, tick_input, process_due_alert,
}

pub apply_transition-ok :
    (a : AlertEntity) (t : AlertStatus)
    → Legal a.status t
    → apply_transition a t ≡ ok (record a { status = t })
unfolding apply_transition
apply_transition-ok a t h = rw h

module _ (repo : Repository) (port : TimerPort) (find_rule : Str → Option AlertRuleEntity) where
  -- The result of `processDueAlert`, case by case.
  pub data Processed (w : World repo port) (k : Str) (due now : ℕ)
      : World repo port × Result (Option EscalationAction) → Type 0 where
    orphan :
        repo.find_one w.alerts k ≡ none
        → Processed w k due now (record w { timers = port.cancel w.timers k }, ok none)
    settled :
        (a : AlertEntity)
        → repo.find_one w.alerts k ≡ some a
        → a.status ≢ opened
        → Processed w k due now (record w { timers = port.cancel w.timers k }, ok none)
    early :
        (a : AlertEntity)
        → repo.find_one w.alerts k ≡ some a
        → a.status ≡ opened
        → now < due
        → Processed w k due now (w, ok none)
    ended :
        (a : AlertEntity) (action : EscalationAction)
        → repo.find_one w.alerts k ≡ some a
        → a.status ≡ opened
        → length (chain_of (find_rule a.rule_id)) ≤ a.escalation_level
        → Processed w k due now (
          record w {
            alerts = repo.save w.alerts (record a { status = escalated });
            timers = port.cancel w.timers k;
          },
          ok (some action),
        )
    climbed :
        (a : AlertEntity) (n : NextStep)
        → repo.find_one w.alerts k ≡ some a
        → IsStep (tick_input repo port find_rule a due now) n
        → Processed w k due now (
            store_escalated repo port find_rule w k a.escalation_level
              (find_rule a.rule_id)
              n
              (ok (record a { status = n.next_status })))

  settle_exhausted-eq :
      (w : World repo port) (k : Str) (a : AlertEntity) (s : AlertStatus)
      → a.status ≡ opened
      → s ≡ escalated
      → settle_exhausted repo port find_rule w k a s
        ≡ close_exhausted repo port find_rule
            (record w { alerts = repo.save w.alerts (record a { status = escalated }) })
            k
            a.escalation_level
            escalated
  unfolding settle_exhausted apply_transition legal_transition
  settle_exhausted-eq w k a s o e = ground arith

  pub IsStep-Legal :
      (a : AlertEntity) (due now : ℕ) (n : NextStep)
      → IsStep (tick_input repo port find_rule a due now) n
      → Legal a.status n.next_status
  unfolding tick_input legal_transition
  IsStep-Legal a due now n h = ground arith

  settle-Processed :
      (w : World repo port) (k : Str) (due now : ℕ) (a : AlertEntity) (d : TickDecision)
      → repo.find_one w.alerts k ≡ some a
      → Decides (tick_input repo port find_rule a due now) d
      → Processed w k due now (settle repo port find_rule w k a (find_rule a.rule_id) d)
  unfolding settle tick_input close_exhausted
  settle-Processed w k due now a (skip true) e h = settled a e h
  settle-Processed w k due now a (skip false) e h = early a e h.0 h.1
  settle-Processed w k due now a (exhausted s) e h =
      rw (settle_exhausted-eq w k a s h.1 h.0) (ended a _ e h.1 h.3)
  settle-Processed w k due now a (escalate n) e h =
      rw (apply_transition-ok a n.next_status (IsStep-Legal a due now n h)) (climbed a n e h)

  pub process-Processed :
      (w : World repo port) (k : Str) (due now : ℕ)
      → Processed w k due now (process_due_alert repo port find_rule w k due now)
  unfolding process_due_alert
  process-Processed w k due now = elim (Option-cases (repo.find_one w.alerts k)) [
    | inl gone ↦ rw (gone, process_due_alert) (orphan gone)
    | inr (a, found) ↦
        rw (found, process_due_alert)
          (settle-Processed w k due now a _ found (decide_tick-Decides _))
  ]
