-- ===== src/Dispatch.antt =====
-- services/alert-notification/src/notifications/dispatch: dispatch.logic.ts (this file) and
-- dispatch.service.ts (`Service`). Delays and factors are whole numbers.
pub mod Backoff
pub mod FanOut
pub mod Service
pub mod Deliveries
pub mod Fallbacks
pub mod Outcomes
mod Tests
use pawaacdrone_fleet_operat.Common.{
  ℕ, suc, ◌+◌, ◌*◌, ◌^◌, min, max, Bool, true, false, ◌&&◌, ◌||◌, List, [], ◌∷◌, ◌++◌, Option, none,
  some, Str, codes, ◌===◌, if◌then◌else◌, get_or, ℤ, pos_part,
}
use pawaacdrone_fleet_operat.Alerts.{Channel, ChannelType, in_app, email, whatsapp, channel_eq}

pub record RetryPolicy : Type 0 where
  pub max_attempts : ℕ
  pub base_delay_ms : ℕ
  pub backoff_factor : ℕ
  pub max_delay_ms : ℕ

pub record PartialPolicy : Type 0 where
  pub max_attempts : Option ℤ
  pub base_delay_ms : Option ℤ
  pub backoff_factor : Option ℤ
  pub max_delay_ms : Option ℤ

abbrev pub default_retry_policy : RetryPolicy
default_retry_policy = record {
  max_attempts = 3;
  base_delay_ms = 100;
  backoff_factor = 2;
  max_delay_ms = 5000;
}

-- `Math.max(low, value ?? default)`; `low` is not negative.
unfoldable pub at_least : ℕ → Option ℤ → ℕ → ℕ
at_least low none default = max low default
at_least low (some value) default = max low (pos_part value)

unfoldable pub resolve_retry_policy : PartialPolicy → RetryPolicy
unfolding at_least
resolve_retry_policy p = record {
  max_attempts = at_least 1 p.max_attempts default_retry_policy.max_attempts;
  base_delay_ms = at_least 0 p.base_delay_ms default_retry_policy.base_delay_ms;
  backoff_factor = at_least 1 p.backoff_factor default_retry_policy.backoff_factor;
  max_delay_ms = at_least 0 p.max_delay_ms default_retry_policy.max_delay_ms;
}

unfoldable pub backoff_delay_ms : ℕ → RetryPolicy → ℕ
backoff_delay_ms attempt_index policy =
    min (policy.base_delay_ms * policy.backoff_factor ^ attempt_index) policy.max_delay_ms

abbrev pub type_name : ChannelType → Str
type_name in_app = codes "in_app"
type_name email = codes "email"
type_name whatsapp = codes "whatsapp"

-- the template text of type, a zero code unit and the target
unfoldable pub channel_key : Channel → Str
channel_key c = type_name c.kind ++ (0 ∷ get_or c.target [])

-- `seen.has(key)`
unfoldable pub has : List Str → Str → Bool
has [] key = false
has (k ∷ seen) key = k === key || has seen key

-- the loop of `fanOutChannels`
unfoldable pub fan_out_from : List Str → List Channel → List Channel
unfolding has channel_key
fan_out_from seen [] = []
fan_out_from seen (c ∷ cs) =
    let skipped = fan_out_from seen cs in
    let kept = c ∷ fan_out_from (channel_key c ∷ seen) cs in
    if has seen (channel_key c) then skipped else kept

unfoldable pub fan_out_channels : List Channel → List Channel
unfolding fan_out_from
fan_out_channels channels = fan_out_from [] channels

unfoldable pub should_fallback_to_in_app : ChannelType → Bool → Bool
unfolding channel_eq
should_fallback_to_in_app failed in_app_healthy =
    if channel_eq failed in_app then false else in_app_healthy
