-- ===== src/Dispatch/Fallbacks.antt =====
-- The in-app fallbacks of a dispatch.
use pawaacdrone_fleet_operat.Common.{
  suc, ◌≤◌, ◌≡◌, ◌⊎◌, inl, inr, refl, sym, ap, subst, ◌∙◌, Bool, true, false, not, ◌&&◌, List, [],
  ◌∷◌, arith, Bool-cases, filter, length, All,
}
use pawaacdrone_fleet_operat.Alerts.{Alert, ChannelType, in_app, channel_eq}
use pawaacdrone_fleet_operat.Dispatch.{should_fallback_to_in_app}
use pawaacdrone_fleet_operat.Dispatch.Service.{
  Wiring, ChannelDeliveryResult, delivered, is_failed, deliver, fallbacks, in_app_channel,
  note_failure,
}
use pawaacdrone_fleet_operat.Dispatch.Deliveries.{deliver-IsDelivery, is_failed_iff}

-- Every result but the last is a delivery.
abbrev pub StopsAtFailure : List ChannelDeliveryResult → Type 0
StopsAtFailure [] = Unit
StopsAtFailure (r ∷ rs) = ((r.status ≡ delivered) ⊎ (rs ≡ [])) × StopsAtFailure rs

abbrev pub not_in_app : ChannelDeliveryResult → Bool
not_in_app r = not (channel_eq r.channel in_app)

delivered_good : (r : ChannelDeliveryResult) → r.status ≡ delivered → is_failed r ≡ false
unfolding is_failed
delivered_good r h = ground arith

and_not-true : (b c : Bool) → c ≡ true → b && not c ≡ false
and_not-true b c h = ground arith

and_not-false : (b c : Bool) → b ≡ true → c ≡ false → b && not c ≡ true
and_not-false b c h k = ground arith

fallback_runs : (k : ChannelType) → should_fallback_to_in_app k true ≡ not (channel_eq k in_app)
unfolding should_fallback_to_in_app
fallback_runs k = ground arith

module _ {W : Type 0} (d : Wiring W) (alert : Alert) where
  abbrev pub IsFallback : ChannelDeliveryResult → Type 0
  IsFallback r = (r.via_fallback ≡ true) × (r.channel ≡ d.in_app_transport.kind)

  pub fallbacks-unhealthy :
      (fs : List ChannelDeliveryResult) (w : W) → (fallbacks d alert fs false w).1 ≡ []
  unfolding fallbacks should_fallback_to_in_app
  fallbacks-unhealthy [] w = refl
  fallbacks-unhealthy (f ∷ fs) w = ground (arith, fallbacks-unhealthy fs w)

  pub fallbacks-All :
      (fs : List ChannelDeliveryResult) (healthy : Bool) (w : W)
      → 1 ≤ d.policy.max_attempts
      → All IsFallback (fallbacks d alert fs healthy w).1
  unfolding fallbacks
  fallbacks-All [] healthy w h = tt
  fallbacks-All (f ∷ fs) healthy w h =
      elim (Bool-cases (should_fallback_to_in_app f.channel healthy)) [
        | inl run ↦
            let i = deliver-IsDelivery d alert d.in_app_transport in_app_channel true w h in
            rw run ((i.own_phase, i.own_channel), fallbacks-All fs _ _ h)
        | inr skip ↦ rw skip (fallbacks-All fs healthy w h)
      ]

  pub fallbacks-Stops :
      (fs : List ChannelDeliveryResult) (healthy : Bool) (w : W)
      → StopsAtFailure (fallbacks d alert fs healthy w).1
  unfolding fallbacks
  fallbacks-Stops [] healthy w = tt
  fallbacks-Stops (f ∷ fs) healthy w =
      elim (Bool-cases (should_fallback_to_in_app f.channel healthy)) [
        | inr skip ↦ rw skip (fallbacks-Stops fs healthy w)
        | inl run ↦ rw run (
          elim (Bool-cases (is_failed first)) [
            | inl bad ↦ inr (
                ap (λ b. (fallbacks d alert fs b after).1) (and_not-true healthy _ bad)
                ∙ fallbacks-unhealthy fs after)
            | inr good ↦ inl ((is_failed_iff first).0 (rw good refl))
          ],
          fallbacks-Stops fs _ _,
        )
      ]
    where
      first : ChannelDeliveryResult
      first = (deliver d alert d.in_app_transport in_app_channel true w).1

      after : W
      after =
          note_failure d alert in_app first
            (deliver d alert d.in_app_transport in_app_channel true w).0

  first_fallback : W → ChannelDeliveryResult
  first_fallback w = (deliver d alert d.in_app_transport in_app_channel true w).1

  after_first : W → W
  after_first w =
      note_failure d alert in_app (deliver d alert d.in_app_transport in_app_channel true w).1
        (deliver d alert d.in_app_transport in_app_channel true w).0

  fallbacks-run :
      (f : ChannelDeliveryResult) (fs : List ChannelDeliveryResult) (healthy : Bool) (w : W)
      → should_fallback_to_in_app f.channel healthy ≡ true
      → (fallbacks d alert (f ∷ fs) healthy w).1
        ≡ first_fallback w
          ∷ (fallbacks d alert fs (healthy && not (is_failed (first_fallback w))) (after_first w)).1
  unfolding fallbacks first_fallback after_first
  fallbacks-run f fs healthy w h = rw h refl

  fallbacks-skip :
      (f : ChannelDeliveryResult) (fs : List ChannelDeliveryResult) (healthy : Bool) (w : W)
      → should_fallback_to_in_app f.channel healthy ≡ false
      → (fallbacks d alert (f ∷ fs) healthy w).1 ≡ (fallbacks d alert fs healthy w).1
  unfolding fallbacks
  fallbacks-skip f fs healthy w h = rw h refl

  -- If every fallback was delivered, each failed channel but the in-app one had its own.
  pub fallbacks-count :
      (fs : List ChannelDeliveryResult) (healthy : Bool) (w : W)
      → healthy ≡ true
      → All (λ r. r.status ≡ delivered) (fallbacks d alert fs healthy w).1
      → length (fallbacks d alert fs healthy w).1 ≡ length (filter not_in_app fs)
  fallbacks-count [] healthy w h a = unfold fallbacks in refl
  fallbacks-count (f ∷ fs) healthy w h a =
      let runs = ap (should_fallback_to_in_app f.channel) h ∙ fallback_runs f.channel in
      elim (Bool-cases (should_fallback_to_in_app f.channel healthy)) [
        | inl run ↦
            let e = fallbacks-run f fs healthy w run in
            let a' = subst (All (λ r. r.status ≡ delivered)) e a in
            let still = and_not-false healthy _ h (delivered_good (first_fallback w) a'.0) in
            rw (e, sym runs ∙ run) (ap suc (fallbacks-count fs _ (after_first w) still a'.1))
        | inr skip ↦
            let e = fallbacks-skip f fs healthy w skip in
            rw (e, sym runs ∙ skip)
              (fallbacks-count fs healthy w h (subst (All (λ r. r.status ≡ delivered)) e a))
      ]
