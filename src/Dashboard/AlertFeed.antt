-- ===== src/Dashboard/AlertFeed.antt =====
-- services/ops-dashboard/src/lib/alert-feed-state.ts. A state is a map from alert identifiers; the
-- sorted list that is rendered is not modelled.
pub mod Ranks
mod Tests
use pawaacdrone_fleet_operat.Common.{
  ℕ, Bool, true, false, not, ◌&&◌, ◌||◌, List, [], ◌∷◌, Option, none, some, if◌then◌else◌, ◌==◌,
  ltb, Str, Dict, get, put,
}
use pawaacdrone_fleet_operat.Alerts.{
  AlertStatus, opened, acknowledged, escalated, closed, status_eq, Alert,
}

pub record AlertFeedItem : Type 0 where
  pub alert : Alert
  pub acknowledging : Bool

abbrev pub AlertFeedState : Type 0
AlertFeedState = Dict AlertFeedItem

abbrev pub status_rank : AlertStatus → ℕ
status_rank opened = 0
status_rank escalated = 1
status_rank acknowledged = 2
status_rank closed = 3

abbrev pub item : Alert → Bool → AlertFeedItem
item alert acknowledging = record { alert = alert; acknowledging = acknowledging }

unfoldable pub is_newer_alert : Alert → Alert → Bool
is_newer_alert existing incoming =
    if not (status_rank incoming.status == status_rank existing.status)
    then ltb (status_rank existing.status) (status_rank incoming.status)
    else ltb existing.escalation_level incoming.escalation_level

unfoldable pub apply_new_alert : AlertFeedState → Alert → AlertFeedState
unfolding is_newer_alert
apply_new_alert state alert = elim (get alert.id state) [
  | none ↦ put alert.id (item alert false) state
  | some existing ↦
      if not (is_newer_alert existing.alert alert)
      then state
      else put alert.id (item alert existing.acknowledging) state
]

unfoldable pub seed_from : AlertFeedState → List Alert → AlertFeedState
unfolding apply_new_alert
seed_from state [] = state
seed_from state (alert ∷ alerts) = seed_from (apply_new_alert state alert) alerts

unfoldable pub seed_alerts : List Alert → AlertFeedState
unfolding seed_from
seed_alerts alerts = seed_from [] alerts

unfoldable pub apply_ack : AlertFeedState → Alert → AlertFeedState
apply_ack state alert = elim (get alert.id state) [
  | none ↦ put alert.id (item alert false) state
  | some existing ↦
      if status_eq existing.alert.status alert.status && not existing.acknowledging
      then state
      else put alert.id (item alert false) state
]

unfoldable pub begin_acknowledge : AlertFeedState → Str → AlertFeedState
begin_acknowledge state id = elim (get id state) [
  | none ↦ state
  | some existing ↦
      if existing.acknowledging then state else put id (item existing.alert true) state
]

unfoldable pub fail_acknowledge : AlertFeedState → Str → AlertFeedState
fail_acknowledge state id = elim (get id state) [
  | none ↦ state
  | some existing ↦
      if not existing.acknowledging then state else put id (item existing.alert false) state
]

unfoldable pub is_actionable : AlertFeedItem → Bool
is_actionable it = status_eq it.alert.status opened || status_eq it.alert.status escalated

pub data DisplayAction : Type 0 where
  retry log : DisplayAction

unfoldable pub next_display_action : ℕ → ℕ → DisplayAction
next_display_action failed_attempts max_retries =
    if ltb failed_attempts max_retries then retry else log
