-- ===== src/Alerts/Service/Contacts.antt =====
-- What the escalation hands to the dispatcher: the alert and the rule's channels, and never the
-- contact of the chain, which only the returned action names.
use pawaacdrone_fleet_operat.Common.{
  ℕ, ◌≡◌, refl, Option, Str, arith, Option-cases, inl, inr, length,
}
use pawaacdrone_fleet_operat.Alerts.Escalation.{TickDecision, skip, escalate, exhausted, NextStep}
use pawaacdrone_fleet_operat.Alerts.Ports.{AlertEntity, AlertRuleEntity, Repository, TimerPort}
use pawaacdrone_fleet_operat.Alerts.Service.{
  World, Result, ok, err, chain_of, channels_of, interval_min_of, settle, store_escalated,
  tick_input, process_due_alert,
}

-- The rules agree but for who is in the chain.
pub record SameButContacts (o o' : Option AlertRuleEntity) : Type 0 where
  pub same_channels : channels_of o ≡ channels_of o'
  pub same_length : length (chain_of o) ≡ length (chain_of o')
  pub same_interval : interval_min_of o ≡ interval_min_of o'

module _ (repo : Repository) (port : TimerPort) (rules rules' : Str → Option AlertRuleEntity)
    (same : (r : Str) → SameButContacts (rules r) (rules' r)) where
  store-contacts :
      (w : World repo port) (k : Str) (l : ℕ) (r : Str) (n : NextStep) (m : Result AlertEntity)
      → (store_escalated repo port rules w k l (rules r) n m).0
        ≡ (store_escalated repo port rules' w k l (rules' r) n m).0
  unfolding store_escalated
  store-contacts w k l r n (err e) = refl
  store-contacts w k l r n (ok a) = rw ((same r).same_channels)

  settle-contacts :
      (w : World repo port) (k : Str) (a : AlertEntity) (d : TickDecision)
      → (settle repo port rules w k a (rules a.rule_id) d).0
        ≡ (settle repo port rules' w k a (rules' a.rule_id) d).0
  unfolding settle
  settle-contacts w k a (skip c) = ground arith
  settle-contacts w k a (exhausted s) = ground arith
  settle-contacts w k a (escalate n) = store-contacts w k a.escalation_level a.rule_id n _

  tick_input-contacts :
      (a : AlertEntity) (due now : ℕ)
      → tick_input repo port rules a due now ≡ tick_input repo port rules' a due now
  unfolding tick_input
  tick_input-contacts a due now = rw ((same a.rule_id).same_length, (same a.rule_id).same_interval)

  -- Whom the chain names has no influence on what is stored, scheduled or dispatched: two rule
  -- tables that differ only in their contacts leave the same state, dispatch log included.
  pub process_contacts_unused :
      (w : World repo port) (k : Str) (due now : ℕ)
      → (process_due_alert repo port rules w k due now).0
        ≡ (process_due_alert repo port rules' w k due now).0
  unfolding process_due_alert
  process_contacts_unused w k due now = elim (Option-cases (repo.find_one w.alerts k)) [
    | inl gone ↦ rw (gone, process_due_alert) refl
    | inr (a, e) ↦
        rw (e, process_due_alert, tick_input-contacts a due now) (settle-contacts w k a _)
  ]
