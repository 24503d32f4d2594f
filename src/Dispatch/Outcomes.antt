-- ===== src/Dispatch/Outcomes.antt =====
-- What a dispatch reports: one primary result for each target, then the in-app fallbacks.
use pawaacdrone_fleet_operat.Common.{
  ◌≤◌, ◌≡◌, ◌↔◌, inl, inr, refl, ap, ◌∙◌, Bool, true, false, not, ◌&&◌, List, [], ◌∷◌, ◌++◌, arith,
  Option-cases, filter, every, length, All, Some,
}
use pawaacdrone_fleet_operat.Alerts.{Alert, Channel, in_app, email, whatsapp, channel_eq}
use pawaacdrone_fleet_operat.Dispatch.{fan_out_channels}
use pawaacdrone_fleet_operat.Dispatch.Service.{
  Wiring, ChannelDeliveryResult, delivered, failed, is_failed, primary, primaries, fallbacks,
  in_app_healthy, dispatch, transport_for, DispatchResult,
}
use pawaacdrone_fleet_operat.Dispatch.Deliveries.{
  deliver-IsDelivery, is_failed_iff, transport_for-kind,
}
use pawaacdrone_fleet_operat.Dispatch.Fallbacks.{
  StopsAtFailure, not_in_app, IsFallback, fallbacks-unhealthy, fallbacks-All, fallbacks-Stops,
  fallbacks-count,
}

-- A primary result is about its channel.
pub record IsPrimary (c : Channel) (r : ChannelDeliveryResult) : Type 0 where
  pub same_type : r.channel ≡ c.kind
  pub same_target : r.target ≡ c.target
  pub first_phase : r.via_fallback ≡ false

-- The lists have the same length, and the property holds position by position.
abbrev pub Zipped :
    (Channel → ChannelDeliveryResult → Type 0) → List Channel → List ChannelDeliveryResult → Type 0
Zipped P [] [] = Unit
Zipped P (c ∷ cs) (r ∷ rs) = P c r × Zipped P cs rs
Zipped P [] (r ∷ rs) = ⊥
Zipped P (c ∷ cs) [] = ⊥

abbrev pub failures : List ChannelDeliveryResult → List ChannelDeliveryResult
failures = filter (λ r. is_failed r && not r.via_fallback)

-- The in-app channel has failed.
abbrev pub InAppFailed : ChannelDeliveryResult → Type 0
InAppFailed r = (r.channel ≡ in_app) × (r.status ≡ failed)

-- Another channel has failed.
abbrev pub is_lost : ChannelDeliveryResult → Bool
is_lost r = elim r.status [
  | delivered ↦ false
  | failed ↦ elim r.channel [ in_app ↦ false | email ↦ true | whatsapp ↦ true ]
]

filter_lost :
    (r : ChannelDeliveryResult) (rs : List ChannelDeliveryResult)
    → r.via_fallback ≡ false
    → filter not_in_app (failures rs) ≡ filter is_lost rs
    → filter not_in_app (failures (r ∷ rs)) ≡ filter is_lost (r ∷ rs)
unfolding is_failed channel_eq
filter_lost r rs p h = ground (arith, p, h)

kept :
    (c : Channel) (r : ChannelDeliveryResult)
    → IsPrimary c r
    → ¬ InAppFailed r
    → (not (is_failed r && channel_eq c.kind in_app) && true) ≡ true
unfolding is_failed channel_eq
kept c r p h = ground (arith, p.same_type, h)

module _ {W : Type 0} (d : Wiring W) (alert : Alert) where
  primary-IsPrimary :
      (c : Channel) (w : W) → 1 ≤ d.policy.max_attempts → IsPrimary c (primary d alert c w).1
  unfolding primary
  primary-IsPrimary c w h = elim (Option-cases (transport_for d c.kind)) [
    | inl absent ↦
        rw (absent, primary) (record { same_type = refl; same_target = refl; first_phase = refl })
    | inr (t, found) ↦
        let i = deliver-IsDelivery d alert t c false w h in
        rw (found, primary)
          (record {
            same_type = i.own_channel ∙ transport_for-kind d c.kind t found;
            same_target = i.own_target;
            first_phase = i.own_phase;
          })
  ]

  primaries-Zipped :
      (cs : List Channel) (w : W)
      → 1 ≤ d.policy.max_attempts
      → Zipped IsPrimary cs (primaries d alert cs w).1
  unfolding primaries
  primaries-Zipped [] w h = tt
  primaries-Zipped (c ∷ cs) w h = (primary-IsPrimary c w h, primaries-Zipped cs _ h)

  every_iff :
      (rs : List ChannelDeliveryResult)
      → (every (λ r. not (is_failed r)) rs ≡ true) ↔ All (λ r. r.status ≡ delivered) rs
  every_iff [] = (λ _. tt, λ _. refl)
  every_iff (r ∷ rs) = (
    λ h. ((is_failed_iff r).0 (ground arith), (every_iff rs).0 (ground arith)),
    λ (h, hs). rw ((is_failed_iff r).1 h, (every_iff rs).1 hs) refl,
  )

  in_app_healthy-lost :
      (cs : List Channel) (rs : List ChannelDeliveryResult)
      → Zipped IsPrimary cs rs
      → Some InAppFailed rs
      → in_app_healthy d alert cs rs ≡ false
  unfolding in_app_healthy is_failed channel_eq
  in_app_healthy-lost [] [] p h = elim h [ ]
  in_app_healthy-lost [] (r ∷ rs) p h = elim p [ ]
  in_app_healthy-lost (c ∷ cs) [] p h = elim p [ ]
  in_app_healthy-lost (c ∷ cs) (r ∷ rs) (p, ps) (inl (k, s)) = ground (arith, p.same_type, k, s)
  in_app_healthy-lost (c ∷ cs) (r ∷ rs) (p, ps) (inr h) =
      ground (arith, in_app_healthy-lost cs rs ps h)

  in_app_healthy-kept :
      (cs : List Channel) (rs : List ChannelDeliveryResult)
      → Zipped IsPrimary cs rs
      → ¬ Some InAppFailed rs
      → in_app_healthy d alert cs rs ≡ true
  unfolding in_app_healthy
  in_app_healthy-kept [] [] p h = refl
  in_app_healthy-kept [] (r ∷ rs) p h = elim p [ ]
  in_app_healthy-kept (c ∷ cs) [] p h = elim p [ ]
  in_app_healthy-kept (c ∷ cs) (r ∷ rs) (p, ps) h =
      rw (in_app_healthy-kept cs rs ps (λ k. h (inr k))) (kept c r p (λ k. h (inl k)))

  lost_of :
      (cs : List Channel) (rs : List ChannelDeliveryResult)
      → Zipped IsPrimary cs rs
      → filter not_in_app (failures rs) ≡ filter is_lost rs
  lost_of [] [] p = refl
  lost_of [] (r ∷ rs) p = elim p [ ]
  lost_of (c ∷ cs) [] p = elim p [ ]
  lost_of (c ∷ cs) (r ∷ rs) (p, ps) = filter_lost r rs p.first_phase (lost_of cs rs ps)

  -- The report of a dispatch.
  pub record IsReport (channels : List Channel) (out : DispatchResult) : Type 0 where
    pub ps : List ChannelDeliveryResult
    pub fs : List ChannelDeliveryResult
    pub parts : out.results ≡ ps ++ fs
    pub each_target : Zipped IsPrimary (fan_out_channels channels) ps
    pub in_app_only : All (IsFallback d alert) fs
    pub stops : StopsAtFailure fs
    pub unhealthy : Some InAppFailed ps → fs ≡ []
    pub complete :
        ¬ Some InAppFailed ps
        → All (λ r. r.status ≡ delivered) fs
        → length fs ≡ length (filter is_lost ps)
    pub verdict : (out.all_delivered ≡ true) ↔ All (λ r. r.status ≡ delivered) out.results

  -- Under a policy of at least one attempt, a dispatch reports one primary result for each target of
  -- the fan-out, in order, then the in-app fallbacks. There are none after the in-app channel has
  -- failed as a primary; else they stop at the first that fails, and if none fails each failed
  -- channel but the in-app one has got one. The verdict is positive exactly if every result is a
  -- delivery.
  pub dispatch-IsReport :
      (channels : List Channel) (w : W)
      → 1 ≤ d.policy.max_attempts
      → IsReport channels (dispatch d alert channels w).1
  unfolding dispatch
  dispatch-IsReport channels w h =
      let targets = fan_out_channels channels in
      let done = primaries d alert targets w in
      let ps = done.1 in
      let zipped = primaries-Zipped targets w h in
      let fs = (fallbacks d alert (failures ps) (in_app_healthy d alert targets ps) done.0).1 in
      record {
        ps = ps;
        fs = fs;
        parts = refl;
        each_target = zipped;
        in_app_only = fallbacks-All d alert (failures ps) _ done.0 h;
        stops = fallbacks-Stops d alert (failures ps) _ done.0;
        unhealthy = λ u.
            ap (λ b. (fallbacks d alert (failures ps) b done.0).1)
              (in_app_healthy-lost targets ps zipped u)
            ∙ fallbacks-unhealthy d alert (failures ps) done.0;
        complete = λ u a.
            fallbacks-count d alert (failures ps) _ done.0 (in_app_healthy-kept targets ps zipped u)
              a
            ∙ ap length (lost_of targets ps zipped);
        verdict = every_iff (ps ++ fs);
      }
