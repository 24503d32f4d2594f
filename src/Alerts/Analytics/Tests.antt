-- ===== src/Alerts/Analytics/Tests.antt =====
-- Analytics at concrete inputs.
use pawaacdrone_fleet_operat.Common.{
  ℕ, ◌≡◌, refl, List, [], ◌∷◌, Option, none, some, Str, codes, ℤ, pos, pos_part, get, put, text_lt,
  ◌===◌,
}
use pawaacdrone_fleet_operat.Alerts.Analytics.{
  AlertAnalyticInput, Count, AlertAnalytics, build_analytics, group_by_zone, group, tally, bump,
  sort_counts, insert_count,
}
use pawaacdrone_fleet_operat.Alerts.Analytics.Conservation.{Conserved, build_analytics-Conserved}

abbrev alert_at : Option Str → ℕ → AlertAnalyticInput
alert_at zone ms = record { zone_id = zone; created_at = some (pos ms) }

abbrev alerts : List AlertAnalyticInput
alerts = alert_at none 7200001 ∷ alert_at (some (codes "a")) 3600000 ∷ alert_at none 3599999 ∷ []

abbrev iso : ℤ → Str
iso ms = pos_part ms ∷ []

abbrev count_of : Str → ℕ → Count
count_of key n = record { key = key; count = n }

group_by_zone_test :
    group_by_zone alerts ≡ count_of (codes "a") 1 ∷ count_of (codes "unzoned") 2 ∷ []
unfolding group_by_zone group tally bump sort_counts insert_count text_lt get put ◌===◌
group_by_zone_test = refl

build_analytics-Conserved_example :
    (r : AlertAnalytics) × (build_analytics iso alerts (codes "f") (codes "t") ≡ some r)
    × Conserved iso alerts r
build_analytics-Conserved_example =
    build_analytics-Conserved iso alerts (codes "f") (codes "t")
      ((pos 7200001, refl), ((pos 3600000, refl), ((pos 3599999, refl), tt)))
