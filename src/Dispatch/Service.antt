-- ===== src/Dispatch/Service.antt =====
-- dispatch.service.ts. `W` is the world that the transports, the backoff sleep and the failure
-- recorder act on; a transport's `send` returns its error, and the recorder swallows its own.
use pawaacdrone_fleet_operat.Common.{
  ℕ, zero, suc, ◌+◌, ◌-◌, Bool, true, false, not, ◌&&◌, List, [], ◌∷◌, ◌++◌, Option, none, some,
  Str, codes, if◌then◌else◌, ◌==◌, filter, every,
}
use pawaacdrone_fleet_operat.Alerts.{Alert, Channel, ChannelType, in_app, channel_eq}
use pawaacdrone_fleet_operat.Dispatch.{
  RetryPolicy, backoff_delay_ms, fan_out_channels, should_fallback_to_in_app,
}

pub data DeliveryStatus : Type 0 where
  delivered failed : DeliveryStatus

pub record ChannelDeliveryResult : Type 0 where
  pub channel : ChannelType
  pub target : Option Str
  pub status : DeliveryStatus
  pub attempts : ℕ
  pub via_fallback : Bool
  pub error : Option Str

pub record DispatchResult : Type 0 where
  pub alert_id : Str
  pub results : List ChannelDeliveryResult
  pub all_delivered : Bool

unfoldable pub is_failed : ChannelDeliveryResult → Bool
is_failed r = elim r.status [ delivered ↦ false | failed ↦ true ]

module _ (W : Type 0) where
  pub record Transport : Type 0 where
    pub kind : ChannelType
    pub send : Alert → Channel → W → W × Option Str

  pub record Wiring : Type 0 where
    pub in_app_transport : Transport
    pub email_transport : Transport
    pub whatsapp_transport : Transport
    pub policy : RetryPolicy
    pub delay : ℕ → W → W
    pub record_failure : Str → ChannelType → W → W

-- `transports.get(type)`: the map is built in the constructor, a later entry replacing an earlier.
unfoldable pub transport_for : {W : Type 0} → Wiring W → ChannelType → Option (Transport W)
transport_for d type =
    if channel_eq d.whatsapp_transport.kind type
    then some d.whatsapp_transport
    else if channel_eq d.email_transport.kind type
    then some d.email_transport
    else if channel_eq d.in_app_transport.kind type
    then some d.in_app_transport
    else none

abbrev pub in_app_channel : Channel
in_app_channel = record { kind = in_app; target = none }

module _ {W : Type 0} (d : Wiring W) (alert : Alert) where
  -- after a failed attempt: sleep, unless it was the last one
  unfoldable pub pause : ℕ → W → W
  pause attempt_index w =
      if attempt_index == d.policy.max_attempts - 1
      then w
      else d.delay (backoff_delay_ms attempt_index d.policy) w

  -- The loop of `deliver`; `left` is `maxAttempts - attemptIndex`.
  unfoldable pub deliver_from :
      Transport W → Channel → Bool → ℕ → ℕ → ℕ → Str → W → W × ChannelDeliveryResult
  deliver_from transport channel via_fallback zero attempts attempt_index last_error w = (
    w,
    record {
      channel = transport.kind;
      target = channel.target;
      status = failed;
      attempts = attempts;
      via_fallback = via_fallback;
      error = some last_error;
    },
  )
  deliver_from transport channel via_fallback (suc left) attempts attempt_index last_error w =
      let (sent, problem) = transport.send alert channel w in
      elim problem [
        | none ↦ (
          sent,
          record {
            channel = transport.kind;
            target = channel.target;
            status = delivered;
            attempts = attempts + 1;
            via_fallback = via_fallback;
            error = none;
          },
        )
        | some message ↦
            deliver_from transport channel via_fallback left (attempts + 1) (attempt_index + 1)
              message (pause attempt_index sent)
      ]

  unfoldable pub deliver : Transport W → Channel → Bool → W → W × ChannelDeliveryResult
  unfolding deliver_from pause
  deliver transport channel via_fallback w =
      deliver_from transport channel via_fallback d.policy.max_attempts 0 0 (codes "unknown error")
        w

  unfoldable pub primary : Channel → W → W × ChannelDeliveryResult
  unfolding transport_for
  primary channel w = elim (transport_for d channel.kind) [
    | some transport ↦ deliver transport channel false w
    | none ↦ (
      w,
      record {
        channel = channel.kind;
        target = channel.target;
        status = failed;
        attempts = 0;
        via_fallback = false;
        error = some (codes "no transport registered");
      },
    )
  ]

  unfoldable pub note_failure : ChannelType → ChannelDeliveryResult → W → W
  unfolding is_failed
  note_failure kind r w = if is_failed r then d.record_failure alert.id kind w else w

  -- phase 1
  unfoldable pub primaries : List Channel → W → W × List ChannelDeliveryResult
  unfolding primary note_failure
  primaries [] w = (w, [])
  primaries (channel ∷ channels) w =
      let (w', r) = primary channel w in
      let (w'', rs) = primaries channels (note_failure channel.kind r w') in (w'', r ∷ rs)

  -- phase 2
  unfoldable pub fallbacks : List ChannelDeliveryResult → Bool → W → W × List ChannelDeliveryResult
  unfolding note_failure
  fallbacks [] healthy w = (w, [])
  fallbacks (f ∷ fs) healthy w =
      let skipped = fallbacks fs healthy w in
      let (w', r) = deliver d.in_app_transport in_app_channel true w in
      let (w'', rs) = fallbacks fs (healthy && not (is_failed r)) (note_failure in_app r w') in
      if should_fallback_to_in_app f.channel healthy then (w'', r ∷ rs) else skipped

  -- `inAppHealthy` after phase 1: no configured in-app channel failed
  unfoldable pub in_app_healthy : List Channel → List ChannelDeliveryResult → Bool
  unfolding is_failed
  in_app_healthy (c ∷ cs) (r ∷ rs) =
      not (is_failed r && channel_eq c.kind in_app) && in_app_healthy cs rs
  in_app_healthy _ _ = true

  unfoldable pub dispatch : List Channel → W → W × DispatchResult
  unfolding primaries fallbacks in_app_healthy
  dispatch channels w =
      let targets = fan_out_channels channels in
      let (w', ps) = primaries targets w in
      let failures = filter (λ r. is_failed r && not r.via_fallback) ps in
      let (w'', fs) = fallbacks failures (in_app_healthy targets ps) w' in
      (
        w'',
        record {
          alert_id = alert.id;
          results = ps ++ fs;
          all_delivered = every (λ r. not (is_failed r)) (ps ++ fs);
        },
      )
