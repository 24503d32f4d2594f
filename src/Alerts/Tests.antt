-- ===== src/Alerts/Tests.antt =====
-- The theorems of the escalation at concrete inputs.
mod Ports
use pawaacdrone_fleet_operat.Common.{
  ℕ, ◌≡◌, ◌≢◌, ◌≤◌, All, refl, sym, ◌∙◌, Option, none, some, Str, codes, arith, inl, inr, List, [],
  ◌∷◌, if◌then◌else◌, ◌===◌, ===_iff, ===_refl, Bool-cases, All, Some, leb, leb→le, true, false,
}
use pawaacdrone_fleet_operat.Alerts.{opened, acknowledged, critical, in_app}
use pawaacdrone_fleet_operat.Alerts.Escalation.{decide_tick, legal_transition}
use pawaacdrone_fleet_operat.Alerts.Escalation.Laws.{Decides, decide_tick-Decides}
use pawaacdrone_fleet_operat.Alerts.Service.{
  World, ok, create_alert, tick_escalations, sweep, after_entry, process_due_alert, settle,
  tick_input, interval_ms_of, interval_min_of, chain_of, channels_of, apply_transition, to_alert,
  store_escalated, CreateAlertInput,
}
use pawaacdrone_fleet_operat.Alerts.Service.History.{
  Reach, here, next, create, ticks, history_acknowledged, history-Change,
}
use pawaacdrone_fleet_operat.Alerts.Service.Invariant.{IsTracked, Within, Reach-IsTracked}
use pawaacdrone_fleet_operat.Alerts.Service.Sweep.{Advanced, tick_escalations-Advanced}
use pawaacdrone_fleet_operat.Alerts.Service.Contacts.{process_contacts_unused}
use pawaacdrone_fleet_operat.Alerts.Ports.{
  AlertEntity, AlertRuleEntity, Repository, TimerPort, DueTimer, Distinct,
}
use pawaacdrone_fleet_operat.Alerts.Tests.Ports.{
  rows_repo, timer_list, find_row, score_of, schedule_timer, remove, due_of,
}

abbrev id_one : Str
id_one = codes "a1"

abbrev pager_rule : AlertRuleEntity
pager_rule = record {
  rule_id = codes "r1";
  channels = record { kind = in_app; target = none } ∷ [];
  escalation_chain = codes "ann" ∷ codes "bob" ∷ [];
  escalation_interval_min = 5;
}

abbrev find_rule : Str → Option AlertRuleEntity
find_rule r = some pager_rule

abbrev other_rule : Str → Option AlertRuleEntity
other_rule r = some (record pager_rule { escalation_chain = codes "cyd" ∷ codes "dan" ∷ [] })

abbrev open_alert : AlertEntity
open_alert = record {
  id = id_one;
  rule_id = codes "r1";
  severity = critical;
  status = opened;
  escalation_level = 0;
  created_at = 1000;
  acknowledged_at = none;
  acknowledged_by = none;
}

abbrev empty_world : World rows_repo timer_list
empty_world = record { alerts = []; timers = ([], tt); sent = [] }

abbrev create_input : CreateAlertInput
create_input = record { rule_id = codes "r1"; severity = critical; escalation_interval_min = 5 }

abbrev raised : World rows_repo timer_list
raised = (create_alert rows_repo timer_list find_rule empty_world id_one create_input 1000).0

-- The first contact is one interval away, and the second one more.
raised_then_ticked :
    (tick_escalations rows_repo timer_list find_rule raised 301_000).1
    ≡ ok (
        record {
          alert_id = id_one;
          from_level = 0;
          to_level = 1;
          contact_id = some (codes "ann");
          status = opened;
          next_due_at = some 601_000;
          dispatched = true;
          terminal = false;
        }
        ∷ [])
unfolding create_alert tick_escalations sweep after_entry process_due_alert settle decide_tick
    find_row ◌===◌ tick_input interval_ms_of interval_min_of chain_of channels_of apply_transition
    legal_transition schedule_timer remove due_of to_alert store_escalated
raised_then_ticked = refl

decide_tick-Decides_example :
    Decides
      (tick_input rows_repo timer_list find_rule open_alert 10 20)
      (decide_tick (tick_input rows_repo timer_list find_rule open_alert 10 20))
decide_tick-Decides_example =
    decide_tick-Decides (tick_input rows_repo timer_list find_rule open_alert 10 20)

abbrev stored : World rows_repo timer_list
stored = record {
  alerts = open_alert ∷ [];
  timers = (record { alert_id = id_one; due_at = 10 } ∷ [], (tt, tt));
  sent = [];
}

acked_alert : AlertEntity
acked_alert = record open_alert { status = acknowledged }

abbrev acked : World rows_repo timer_list
acked = record stored { alerts = acked_alert ∷ [] }

-- The rule is replaced between the two sweeps.
abbrev ticked_twice : World rows_repo timer_list
ticked_twice =
    (tick_escalations rows_repo timer_list other_rule
      (tick_escalations rows_repo timer_list find_rule acked 50).0 60).0

acked_twice-Reach : Reach rows_repo timer_list acked (other_rule ∷ find_rule ∷ []) ticked_twice
acked_twice-Reach = next other_rule (next find_rule here (ticks 50)) (ticks 60)

history_acknowledged_example : find_row ticked_twice.alerts id_one ≡ some acked_alert
unfolding acked_alert find_row ◌===◌
history_acknowledged_example =
    (history_acknowledged rows_repo timer_list id_one acked_alert acked_twice-Reach refl refl).0

history-Change_example :
    (b : AlertEntity) × (find_row ticked_twice.alerts id_one ≡ some b)
    × (b.rule_id ≡ codes "r1")
    × (legal_transition acknowledged b.status ≡ true)
    × (0 ≤ b.escalation_level)
unfolding acked_alert find_row ◌===◌
history-Change_example =
    history-Change rows_repo timer_list id_one acked_alert acked_twice-Reach refl

abbrev at_most_two : Str → ℕ
at_most_two r = 2

empty_world-IsTracked : IsTracked rows_repo timer_list at_most_two empty_world
unfolding find_row score_of
empty_world-IsTracked j = (refl, tt)

raised-Reach :
    Reach rows_repo timer_list empty_world
      (other_rule ∷ find_rule ∷ [])
      (tick_escalations rows_repo timer_list other_rule raised 301_000).0
unfolding find_row
raised-Reach =
    next other_rule (next find_rule here (create id_one create_input 1000 refl)) (ticks 301_000)

rules-Within : All (Within at_most_two) (other_rule ∷ find_rule ∷ [])
unfolding chain_of
rules-Within = (λ r. omega arith, (λ r. omega arith, tt))

Reach-IsTracked_example :
    IsTracked rows_repo timer_list at_most_two
      (tick_escalations rows_repo timer_list other_rule raised 301_000).0
Reach-IsTracked_example =
    Reach-IsTracked rows_repo timer_list at_most_two raised-Reach rules-Within empty_world-IsTracked

tick_escalations-Advanced_example :
    Advanced rows_repo timer_list find_rule open_alert
      (find_row (tick_escalations rows_repo timer_list find_rule stored 60).0.alerts id_one)
unfolding find_row score_of ◌===◌
tick_escalations-Advanced_example =
    (tick_escalations-Advanced rows_repo timer_list find_rule stored 60 id_one 10 open_alert refl
      refl refl (omega arith)).1

process_contacts_unused_example :
    (process_due_alert rows_repo timer_list find_rule stored id_one 10 60).0
    ≡ (process_due_alert rows_repo timer_list other_rule stored id_one 10 60).0
unfolding channels_of chain_of interval_min_of
process_contacts_unused_example =
    process_contacts_unused rows_repo timer_list find_rule other_rule
      (λ r. record { same_channels = refl; same_length = refl; same_interval = refl }) stored id_one
      10 60
