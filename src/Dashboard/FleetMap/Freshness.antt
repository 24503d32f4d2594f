-- ===== src/Dashboard/FleetMap/Freshness.antt =====
-- The order in which samples arrive does not matter to the map.
use pawaacdrone_fleet_operat.Common.{
  ◌≡◌, ◌≢◌, ◌∙◌, refl, sym, ap, subst, inl, inr, true, false, not, Option, none, some, Option-cases,
  if◌then◌else◌, Bool-cases, Str, ◌===◌, ===_iff, Str-cases, ===_ne, get, get-put, text_lt,
  text_lt_irrefl, text_lt_trans, text_lt_total,
}
use pawaacdrone_fleet_operat.Telemetry.{TelemetrySample}
use pawaacdrone_fleet_operat.Dashboard.FleetMap.{
  DroneMarker, FleetMarkerState, is_fresh_sample, updated, discovered, apply_telemetry_sample,
}

-- What a sample makes of what the map shows of its drone.
abbrev refreshed : TelemetrySample → DroneMarker → DroneMarker
refreshed sample m =
    if not (is_fresh_sample m.last_telemetry_ts sample.ts) then m else updated sample m

abbrev shown : TelemetrySample → Option DroneMarker → Option DroneMarker
shown sample none = some (updated sample (discovered sample.drone_id))
shown sample (some m) = some (refreshed sample m)

get-apply_telemetry_sample :
    (state : FleetMarkerState) (sample : TelemetrySample) (id : Str)
    → get id (apply_telemetry_sample state sample)
      ≡ (if sample.drone_id === id then shown sample (get sample.drone_id state) else get id state)
unfolding apply_telemetry_sample
get-apply_telemetry_sample state sample id = elim (Option-cases (get sample.drone_id state)) [
  | inl e ↦ rw (e, apply_telemetry_sample) (get-put sample.drone_id id _ state)
  | inr (m, e) ↦ elim (Bool-cases (is_fresh_sample m.last_telemetry_ts sample.ts)) [
    | inl f ↦ rw (e, apply_telemetry_sample) (rw (f) (get-put sample.drone_id id _ state))
    | inr f ↦ elim (Str-cases sample.drone_id id) [
      | inl q ↦
          rw (e, apply_telemetry_sample)
            (rw (f) (rw ((===_iff sample.drone_id id).1 q) (subst (λ k. get k state ≡ some m) q e)))
      | inr q ↦ rw (e, apply_telemetry_sample) (rw (f) (rw (===_ne sample.drone_id id q) refl))
    ]
  ]
]

-- The later of two samples of one drone prevails.
module _ (s t : TelemetrySample) (same : s.drone_id ≡ t.drone_id)
    (later : text_lt s.ts t.ts ≡ true) where
  not_earlier : text_lt t.ts s.ts ≡ false
  not_earlier = elim (Bool-cases (text_lt t.ts s.ts)) [
    | inl e ↦
        let loop = text_lt_trans s.ts t.ts s.ts later e in let none_less = text_lt_irrefl s.ts in cc
    | inr e ↦ e
  ]

  fresh_later : (o : Option Str) → is_fresh_sample o s.ts ≡ true → is_fresh_sample o t.ts ≡ true
  unfolding is_fresh_sample
  fresh_later none h = refl
  fresh_later (some l) h = text_lt_trans l s.ts t.ts h later

  refreshed_late : (m : DroneMarker) → refreshed s (refreshed t m) ≡ refreshed t m
  unfolding is_fresh_sample
  refreshed_late m = elim (Bool-cases (is_fresh_sample m.last_telemetry_ts t.ts)) [
    | inl f ↦ rw (f) (rw (not_earlier) refl)
    | inr f ↦ elim (Bool-cases (is_fresh_sample m.last_telemetry_ts s.ts)) [
      | inl g ↦ let h = fresh_later m.last_telemetry_ts g in cc
      | inr g ↦ rw (f) (rw (g) refl)
    ]
  ]

  refreshed_early : (m : DroneMarker) → refreshed t (refreshed s m) ≡ refreshed t m
  unfolding is_fresh_sample
  refreshed_early m = elim (Bool-cases (is_fresh_sample m.last_telemetry_ts s.ts)) [
    | inl g ↦ rw (g) (rw (later) (rw (fresh_later m.last_telemetry_ts g) refl))
    | inr g ↦ rw (g) refl
  ]

  late_then_early : (o : Option DroneMarker) → shown s (shown t o) ≡ shown t o
  unfolding is_fresh_sample
  late_then_early none = rw (not_earlier) refl
  late_then_early (some m) = ap some (refreshed_late m)

  early_then_late : (o : Option DroneMarker) → shown t (shown s o) ≡ shown t o
  unfolding is_fresh_sample
  early_then_late none = rw (later) refl
  early_then_late (some m) = ap some (refreshed_early m)

shown-shown :
    (s t : TelemetrySample) (o : Option DroneMarker)
    → s.drone_id ≡ t.drone_id
    → s.ts ≢ t.ts
    → shown s (shown t o) ≡ shown t (shown s o)
shown-shown s t o e n = elim (text_lt_total s.ts t.ts) [
  | inl q ↦ absurd (n q)
  | inr (inl l) ↦ late_then_early s t e l o ∙ sym (early_then_late s t e l o)
  | inr (inr l) ↦ early_then_late t s (sym e) l o ∙ sym (late_then_early t s (sym e) l o)
]

module _ (state : FleetMarkerState) (s t : TelemetrySample) (id : Str) where
  abbrev both : FleetMarkerState
  both = apply_telemetry_sample (apply_telemetry_sample state s) t

  -- The map after both samples, read at the drone of either.
  get_same : s.drone_id ≡ id → t.drone_id ≡ id → get id both ≡ shown t (shown s (get id state))
  get_same e f =
      get-apply_telemetry_sample (apply_telemetry_sample state s) t id
      ∙ rw ((===_iff t.drone_id id).1 f) (
          ap (shown t) (
            get-apply_telemetry_sample state s t.drone_id
            ∙ rw ((===_iff s.drone_id t.drone_id).1 (e ∙ sym f))
                (ap (λ k. shown s (get k state)) e)))

  get_first : s.drone_id ≡ id → t.drone_id ≢ id → get id both ≡ shown s (get id state)
  get_first e n =
      get-apply_telemetry_sample (apply_telemetry_sample state s) t id
      ∙ rw (===_ne t.drone_id id n) (
          get-apply_telemetry_sample state s id
          ∙ rw ((===_iff s.drone_id id).1 e) (ap (λ k. shown s (get k state)) e))

  get_second : s.drone_id ≢ id → t.drone_id ≡ id → get id both ≡ shown t (get id state)
  get_second n f =
      get-apply_telemetry_sample (apply_telemetry_sample state s) t id
      ∙ rw ((===_iff t.drone_id id).1 f) (
          ap (shown t) (
            ap (λ k. get k (apply_telemetry_sample state s)) f
            ∙ get-apply_telemetry_sample state s id
            ∙ rw (===_ne s.drone_id id n) refl))

  get_neither : s.drone_id ≢ id → t.drone_id ≢ id → get id both ≡ get id state
  get_neither n k =
      get-apply_telemetry_sample (apply_telemetry_sample state s) t id
      ∙ rw (===_ne t.drone_id id k)
          (get-apply_telemetry_sample state s id ∙ rw (===_ne s.drone_id id n) refl)

-- Two samples with different timestamps may arrive in either order: each drone is shown the same.
pub apply_telemetry_sample_comm :
    (state : FleetMarkerState) (s t : TelemetrySample) (id : Str)
    → s.ts ≢ t.ts
    → get id (apply_telemetry_sample (apply_telemetry_sample state s) t)
      ≡ get id (apply_telemetry_sample (apply_telemetry_sample state t) s)
apply_telemetry_sample_comm state s t id n = elim (Str-cases s.drone_id id) [
  | inl e ↦ elim (Str-cases t.drone_id id) [
    | inl f ↦
        get_same state s t id e f
        ∙ shown-shown t s (get id state) (f ∙ sym e) (λ q. n (sym q))
        ∙ sym (get_same state t s id f e)
    | inr k ↦ get_first state s t id e k ∙ sym (get_second state t s id k e)
  ]
  | inr k ↦ elim (Str-cases t.drone_id id) [
    | inl f ↦ get_second state s t id k f ∙ sym (get_first state t s id f k)
    | inr l ↦ get_neither state s t id k l ∙ sym (get_neither state t s id l k)
  ]
]
