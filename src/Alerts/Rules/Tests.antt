-- ===== src/Alerts/Rules/Tests.antt =====
-- The rule engine at concrete inputs.
use mathlib.Core.List.{Mem}
use pawaacdrone_fleet_operat.Common.{
  ℕ, ◌≡◌, refl, true, ◌↔◌, List, [], ◌∷◌, Option, none, some, Str, codes, Bool, int, ◌===◌,
}
use pawaacdrone_fleet_operat.Alerts.{anomaly, scene}
use pawaacdrone_fleet_operat.Alerts.Rules.{
  AlertRule, DomainEvent, number, array, object, cons, nil, field, end, gte, rule_matches,
  evaluate_rules, in_window, utc_minutes, eval_condition, kind_eq, zone_holds, window_holds,
  all_conditions,
}
use pawaacdrone_fleet_operat.Alerts.Rules.Windows.{window}
use pawaacdrone_fleet_operat.Alerts.Rules.Matching.{Matches, rule_matches_iff, evaluate_rules_iff}

-- Every text reads as ten at night.
abbrev at_ten : Str → Option ℕ
at_ten ts = some 79_200_000

abbrev low_battery : DomainEvent
low_battery = record {
  kind = anomaly;
  ts = codes "T";
  zone_id = none;
  fields =
      field (codes "payload")
        (object (field (codes "levels") (array (cons (number (int 7)) nil)) end)) end;
}

abbrev night_rule : AlertRule
night_rule = record {
  enabled = true;
  event_kind = anomaly;
  conditions =
      record { path = codes "payload.levels.0"; operator = gte; value = number (int 5) } ∷ [];
  time_window = some (window 1320 360);
  zone_id = none;
}

abbrev scene_rule : AlertRule
scene_rule = record night_rule { event_kind = scene }

evaluate_test :
    evaluate_rules at_ten low_battery (scene_rule ∷ night_rule ∷ []) ≡ some (night_rule ∷ [])
unfolding evaluate_rules rule_matches kind_eq zone_holds window_holds in_window all_conditions
    eval_condition ◌===◌
evaluate_test = refl

rule_matches_iff_example :
    (b : Bool) × (rule_matches at_ten night_rule low_battery ≡ some b)
    × ((b ≡ true) ↔ Matches night_rule low_battery (utc_minutes 79_200_000))
rule_matches_iff_example = rule_matches_iff at_ten night_rule low_battery 79_200_000 refl

evaluate_rules_iff_example :
    (out : List AlertRule) × (evaluate_rules at_ten low_battery (night_rule ∷ []) ≡ some out)
    × ((r : AlertRule)
        → Mem r out ↔ (Mem r (night_rule ∷ []) × Matches r low_battery (utc_minutes 79_200_000)))
evaluate_rules_iff_example = evaluate_rules_iff at_ten low_battery (night_rule ∷ []) 79_200_000 refl
