-- ===== src/Dispatch/Deliveries.antt =====
-- One delivery over a transport, with its retries.
use pawaacdrone_fleet_operat.Common.{
  ℕ, zero, suc, ◌+◌, ◌≤◌, ◌≡◌, ◌↔◌, inl, inr, refl, subst, Bool, true, not, Option, none, some, Str,
  arith, Bool-cases, Option-cases,
}
use pawaacdrone_fleet_operat.Alerts.{Alert, Channel, ChannelType, channel_eq}
use pawaacdrone_fleet_operat.Dispatch.Service.{
  Wiring, Transport, ChannelDeliveryResult, delivered, failed, is_failed, deliver_from, deliver,
  transport_for,
}

-- One delivery: whose it is, and between `lo` and `hi` attempts, all of them if it failed.
pub record IsDelivery (kind : ChannelType) (target : Option Str) (via : Bool) (lo hi : ℕ)
    (r : ChannelDeliveryResult) : Type 0 where
  pub own_channel : r.channel ≡ kind
  pub own_target : r.target ≡ target
  pub own_phase : r.via_fallback ≡ via
  pub at_least : lo ≤ r.attempts
  pub at_most : r.attempts ≤ hi
  pub all_used : r.status ≡ failed → r.attempts ≡ hi
  pub told : (r.error ≡ none) ↔ (r.status ≡ delivered)

failed-ne-delivered : ¬ (failed ≡ delivered)
failed-ne-delivered e = cc

delivered-ne-failed : ¬ (delivered ≡ failed)
delivered-ne-failed e = cc

some-ne-none : {s : Str} → ¬ (some s ≡ none)
some-ne-none e = cc

pub is_failed_iff :
    (r : ChannelDeliveryResult) → (not (is_failed r) ≡ true) ↔ (r.status ≡ delivered)
unfolding is_failed
is_failed_iff r = (λ h. ground arith, λ h. ground arith)

channel_eq_sound : (k l : ChannelType) → channel_eq k l ≡ true → k ≡ l
unfolding channel_eq
channel_eq_sound k l h = ground arith

pub transport_for-kind :
    {W : Type 0} (d : Wiring W) (k : ChannelType) (t : Transport W)
    → transport_for d k ≡ some t
    → t.kind ≡ k
unfolding transport_for
transport_for-kind d k t h = elim (Bool-cases (channel_eq d.whatsapp_transport.kind k)) [
  | inl w ↦ ground (arith, channel_eq_sound d.whatsapp_transport.kind k w)
  | inr v ↦ elim (Bool-cases (channel_eq d.email_transport.kind k)) [
    | inl e ↦ ground (arith, channel_eq_sound d.email_transport.kind k e)
    | inr f ↦ ground (arith, channel_eq_sound d.in_app_transport.kind k)
  ]
]

module _ {W : Type 0} (d : Wiring W) (alert : Alert) where
  deliver_from-IsDelivery :
      (t : Transport W) (c : Channel) (via : Bool) (left attempts index : ℕ) (e : Str) (w : W)
      → 1 ≤ attempts + left
      → IsDelivery t.kind c.target via 1
          (attempts + left)
          (deliver_from d alert t c via left attempts index e w).1
  unfolding deliver_from
  deliver_from-IsDelivery t c via zero attempts index e w h = record {
    own_channel = refl;
    own_target = refl;
    own_phase = refl;
    at_least = omega arith;
    at_most = omega arith;
    all_used = λ _. omega arith;
    told = (λ p. absurd (some-ne-none p), λ p. absurd (failed-ne-delivered p));
  }
  deliver_from-IsDelivery t c via (suc left) attempts index e w h =
      elim (Option-cases (t.send alert c w).1) [
        | inl fine ↦
            rw (fine, deliver_from)
              (record {
                own_channel = refl;
                own_target = refl;
                own_phase = refl;
                at_least = omega arith;
                at_most = omega arith;
                all_used = λ p. absurd (delivered-ne-failed p);
                told = (λ _. refl, λ _. refl);
              })
        | inr (message, bad) ↦
            let more : attempts + suc left ≡ attempts + 1 + left = omega arith in
            rw (bad, more, deliver_from)
              (deliver_from-IsDelivery t c via left (attempts + 1) (index + 1) message _
                (omega arith))
      ]

  -- Under a policy of at least one attempt, a delivery makes at least one attempt and at most
  -- `maxAttempts`, all of them when it fails.
  pub deliver-IsDelivery :
      (t : Transport W) (c : Channel) (via : Bool) (w : W)
      → 1 ≤ d.policy.max_attempts
      → IsDelivery t.kind c.target via 1 d.policy.max_attempts (deliver d alert t c via w).1
  unfolding deliver
  deliver-IsDelivery t c via w h =
      let all : 0 + d.policy.max_attempts ≡ d.policy.max_attempts = omega arith in
      subst (λ n. IsDelivery t.kind c.target via 1 n (deliver d alert t c via w).1) all
        (deliver_from-IsDelivery t c via d.policy.max_attempts 0 0 _ w (omega arith))
