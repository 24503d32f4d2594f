-- ===== src/Dispatch/Tests.antt =====
-- Dispatch at concrete inputs; the world counts the sends.
use pawaacdrone_fleet_operat.Common.{
  All, Some, ℕ, ◌+◌, ◌≡◌, refl, false, [], ◌∷◌, none, some, codes, arith, ◌===◌, map, pos, negsuc,
}
use pawaacdrone_fleet_operat.Alerts.{
  Alert, Channel, in_app, email, whatsapp, critical, opened, ChannelType, channel_eq,
}
use pawaacdrone_fleet_operat.Dispatch.{
  default_retry_policy, resolve_retry_policy, should_fallback_to_in_app, backoff_delay_ms,
  fan_out_channels,
}
use pawaacdrone_fleet_operat.Dispatch.Service.{Wiring, Transport, dispatch, deliver}
use pawaacdrone_fleet_operat.Dispatch.FanOut.{
  SameTarget, NoRepeats, Subsequence, fan_out_channels_exact,
}
use pawaacdrone_fleet_operat.Dispatch.Deliveries.{IsDelivery, deliver-IsDelivery}
use pawaacdrone_fleet_operat.Dispatch.Outcomes.{IsReport, dispatch-IsReport}

abbrev works : ChannelType → Transport ℕ
works k = record { kind = k; send = λ a c w. (w + 1, none) }

abbrev broken : ChannelType → Transport ℕ
broken k = record { kind = k; send = λ a c w. (w + 1, some (codes "down")) }

abbrev wiring : Wiring ℕ
wiring = record {
  in_app_transport = works in_app;
  email_transport = broken email;
  whatsapp_transport = works whatsapp;
  policy = default_retry_policy;
  delay = λ ms w. w;
  record_failure = λ a k w. w;
}

abbrev fire : Alert
fire = record {
  id = codes "a1";
  rule_id = codes "r1";
  severity = critical;
  status = opened;
  escalation_level = 0;
  created_at = 0;
  acknowledged_at = none;
  acknowledged_by = none;
}

abbrev by_mail : Channel
by_mail = record { kind = email; target = some (codes "ops@x") }

abbrev by_phone : Channel
by_phone = record { kind = whatsapp; target = some (codes "42") }

-- Three sends by mail, one by phone and one in-app fallback.
dispatch_test :
    map (λ r. r.attempts) (dispatch wiring fire (by_mail ∷ by_phone ∷ by_mail ∷ []) 0).1.results
    ≡ 3 ∷ 1 ∷ 1 ∷ []
unfolding dispatch deliver fan_out_channels ◌===◌ backoff_delay_ms channel_eq
    should_fallback_to_in_app
dispatch_test = refl

policy_test :
    resolve_retry_policy (record {
      max_attempts = some (negsuc 3);
      base_delay_ms = none;
      backoff_factor = some (pos 3);
      max_delay_ms = none;
    })
    ≡ record { max_attempts = 1; base_delay_ms = 100; backoff_factor = 3; max_delay_ms = 5000 }
unfolding resolve_retry_policy
policy_test = refl

deliver-IsDelivery_example :
    IsDelivery email
      (some (codes "ops@x"))
      false
      1
      3
      (deliver wiring fire (broken email) by_mail false 0).1
deliver-IsDelivery_example =
    deliver-IsDelivery wiring fire (broken email) by_mail false 0 (omega arith)

dispatch-IsReport_example :
    IsReport wiring fire
      (by_mail ∷ by_phone ∷ [])
      (dispatch wiring fire (by_mail ∷ by_phone ∷ []) 0).1
dispatch-IsReport_example = dispatch-IsReport wiring fire (by_mail ∷ by_phone ∷ []) 0 (omega arith)

fan_out_channels_test :
    fan_out_channels (by_mail ∷ by_phone ∷ by_mail ∷ []) ≡ by_mail ∷ by_phone ∷ []
unfolding fan_out_channels ◌===◌
fan_out_channels_test = refl

fan_out_channels_exact_example :
    Subsequence
      (fan_out_channels (by_mail ∷ by_phone ∷ by_mail ∷ []))
      (by_mail ∷ by_phone ∷ by_mail ∷ [])
    × NoRepeats (fan_out_channels (by_mail ∷ by_phone ∷ by_mail ∷ []))
    × All
        (λ c. Some (λ d. SameTarget d c) (fan_out_channels (by_mail ∷ by_phone ∷ by_mail ∷ [])))
        (by_mail ∷ by_phone ∷ by_mail ∷ [])
fan_out_channels_exact_example = fan_out_channels_exact (by_mail ∷ by_phone ∷ by_mail ∷ [])
