-- ===== src/Dashboard/AlertFeed/Tests.antt =====
-- The alert feed at concrete inputs.
use pawaacdrone_fleet_operat.Common.{
  ◌≡◌, inl, refl, false, ◌===◌, List, [], ◌∷◌, none, some, codes, get, put,
}
use pawaacdrone_fleet_operat.Alerts.{
  AlertStatus, opened, escalated, acknowledged, status_eq, Alert, critical,
}
use pawaacdrone_fleet_operat.Dashboard.AlertFeed.{
  AlertFeedItem, AlertFeedState, item, is_newer_alert, apply_new_alert, seed_alerts, seed_from,
  is_actionable,
}
use pawaacdrone_fleet_operat.Dashboard.AlertFeed.Ranks.{
  FeedEvent, new, ack, fail, feed_all, feed_all-settled,
}

abbrev alert_of : AlertStatus → Alert
alert_of status = record {
  id = codes "a";
  rule_id = codes "r";
  severity = critical;
  status = status;
  escalation_level = 1;
  created_at = 0;
  acknowledged_at = none;
  acknowledged_by = none;
}

-- The most advanced status wins, whatever the order.
seed_alerts_test :
    seed_alerts (alert_of acknowledged ∷ alert_of opened ∷ [])
    ≡ seed_alerts (alert_of opened ∷ alert_of acknowledged ∷ [])
unfolding seed_alerts seed_from apply_new_alert is_newer_alert get put ◌===◌
seed_alerts_test = refl

abbrev events : List FeedEvent
events = new (alert_of escalated) ∷ ack (alert_of acknowledged) ∷ fail (codes "a") ∷ []

abbrev shown : AlertFeedState
shown = (codes "a", item (alert_of acknowledged) false) ∷ []

feed_all-settled_example :
    (it : AlertFeedItem) × (get (codes "a") (feed_all shown events) ≡ some it)
    × (is_actionable it ≡ false)
unfolding get ◌===◌ is_actionable status_eq
feed_all-settled_example =
    feed_all-settled shown events (codes "a") (item (alert_of acknowledged) false)
      (tt, (inl refl, (tt, tt))) refl refl
