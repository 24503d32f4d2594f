-- ===== src/Dashboard/Panels/Capacity.antt =====
-- The series of a panel are bounded and stay in step.
use pawaacdrone_fleet_operat.Common.{
  ℕ, zero, suc, ◌-◌, ◌≤◌, ◌<◌, ◌≡◌, ◌∙◌, refl, sym, ap, subst, inl, inr, Bool, ◌&&◌, List, [], ◌∷◌,
  ◌++◌, map, some, Option-cases, Bool-cases, ltb, Str, Str-cases, get, put, get-put_self,
  get-put_other, some_inj, none-some, length, drop, length-map, arith,
}
use pawaacdrone_fleet_operat.Telemetry.{TelemetrySample}
use pawaacdrone_fleet_operat.Dashboard.FleetMap.{is_fresh_sample}
use pawaacdrone_fleet_operat.Dashboard.Panels.{
  SeriesPoint, DronePanelData, TelemetryPanelState, trimmed, push_bounded, battery_point,
  altitude_point, panel_of, apply_panel_sample, sort_samples, seeded, last_of, put_seeded,
  seed_panel_samples,
}

length-drop {ℓ} : {A : Type ℓ} (n : ℕ) (xs : List A) → length (drop n xs) ≡ length xs - n
length-drop zero xs = omega arith
length-drop (suc n) [] = omega arith
length-drop (suc n) (x ∷ xs) = omega (arith, length-drop n xs)

map-drop {ℓ κ} :
    {A : Type ℓ} {B : Type κ} (f : A → B) (n : ℕ) (xs : List A)
    → map f (drop n xs) ≡ drop n (map f xs)
map-drop f zero xs = refl
map-drop f (suc n) [] = refl
map-drop f (suc n) (x ∷ xs) = map-drop f n xs

length-trimmed-le {ℓ} :
    {A : Type ℓ} (capacity : ℕ) (xs : List A)
    → 0 < capacity
    → length (trimmed capacity xs) ≤ capacity
unfolding trimmed
length-trimmed-le capacity xs h = ground (arith, length-drop (length xs - capacity) xs)

map-trimmed {ℓ κ} :
    {A : Type ℓ} {B : Type κ} (f : A → B) (capacity : ℕ) (xs : List A)
    → map f (trimmed capacity xs) ≡ trimmed capacity (map f xs)
unfolding trimmed
map-trimmed f capacity xs = elim (Bool-cases (ltb 0 capacity && ltb capacity (length xs))) [
  | inl e ↦ rw (length-map f xs) (rw (e) (map-drop f (length xs - capacity) xs))
  | inr e ↦ rw (length-map f xs) (rw (e) refl)
]

map-append {ℓ κ} :
    {A : Type ℓ} {B : Type κ} (f : A → B) (xs ys : List A) → map f (xs ++ ys) ≡ map f xs ++ map f ys
map-append f [] ys = refl
map-append f (x ∷ xs) ys = ap (λ zs. f x ∷ zs) (map-append f xs ys)

abbrev pub time : SeriesPoint → Str
time point = point.ts

-- Both series are within the capacity and have points of the same times.
pub record Bounded (capacity : ℕ) (panel : DronePanelData) : Type 0 where
  pub battery : length panel.battery_series ≤ capacity
  pub altitude : length panel.altitude_series ≤ capacity
  pub times : map time panel.battery_series ≡ map time panel.altitude_series

push_times :
    (capacity : ℕ) (series : List SeriesPoint) (point : SeriesPoint)
    → map time (push_bounded series point capacity)
      ≡ trimmed capacity (map time series ++ (point.ts ∷ []))
unfolding push_bounded
push_times capacity series point =
    map-trimmed time capacity (series ++ (point ∷ []))
    ∙ ap (trimmed capacity) (map-append time series (point ∷ []))

module _ (capacity : ℕ) (positive : 0 < capacity) where
  panel_of-Bounded :
      (sample : TelemetrySample) (batteries altitudes : List SeriesPoint)
      → map time batteries ≡ map time altitudes
      → Bounded capacity (panel_of sample capacity batteries altitudes)
  unfolding panel_of push_bounded
  panel_of-Bounded sample batteries altitudes e = record {
    battery = length-trimmed-le capacity _ positive;
    altitude = length-trimmed-le capacity _ positive;
    times =
        push_times capacity batteries (battery_point sample)
        ∙ ap (λ ts. trimmed capacity (ts ++ (sample.ts ∷ []))) e
        ∙ sym (push_times capacity altitudes (altitude_point sample));
  }

  same_times :
      (samples : List TelemetrySample)
      → map time (map battery_point samples) ≡ map time (map altitude_point samples)
  same_times [] = refl
  same_times (s ∷ ss) = ap (λ ts. s.ts ∷ ts) (same_times ss)

  abbrev AllBounded : TelemetryPanelState → Type 0
  AllBounded state =
      (id : Str) (panel : DronePanelData) → get id state ≡ some panel → Bounded capacity panel

  AllBounded-put :
      (state : TelemetryPanelState) (j : Str) (panel : DronePanelData)
      → AllBounded state
      → Bounded capacity panel
      → AllBounded (put j panel state)
  AllBounded-put state j panel all b id p h = elim (Str-cases j id) [
    | inl e ↦
        subst (Bounded capacity)
          (some_inj (sym (get-put_self j panel state) ∙ ap (λ k. get k (put j panel state)) e ∙ h))
          b
    | inr n ↦ all id p (sym (get-put_other j id panel state n) ∙ h)
  ]

  AllBounded-sample :
      (state : TelemetryPanelState) (sample : TelemetrySample)
      → AllBounded state
      → AllBounded (apply_panel_sample state sample capacity)
  unfolding apply_panel_sample
  AllBounded-sample state sample all = elim (Option-cases (get sample.drone_id state)) [
    | inl e ↦
        rw (e, apply_panel_sample)
          (AllBounded-put state _ _ all (panel_of-Bounded sample [] [] refl))
    | inr (panel, e) ↦ elim (Bool-cases (is_fresh_sample panel.last_ts sample.ts)) [
      | inl f ↦
          rw (e, apply_panel_sample)
            (rw (f) (
              AllBounded-put state _ _ all (
                panel_of-Bounded sample panel.battery_series panel.altitude_series
                  (all sample.drone_id panel e).times)))
      | inr f ↦ rw (e, apply_panel_sample) (rw (f) all)
    ]
  ]

  seeded-Bounded :
      (id : Str) (samples : List TelemetrySample) (latest : TelemetrySample)
      → length samples ≤ capacity
      → Bounded capacity (seeded id samples latest)
  unfolding seeded
  seeded-Bounded id samples latest h = record {
    battery = omega (arith, length-map battery_point samples);
    altitude = omega (arith, length-map altitude_point samples);
    times = same_times samples;
  }

  AllBounded-seed :
      (state : TelemetryPanelState) (id : Str) (samples : List TelemetrySample)
      → AllBounded state
      → length samples ≤ capacity
      → AllBounded (put_seeded state id samples)
  unfolding put_seeded
  AllBounded-seed state id [] all h = all
  AllBounded-seed state id (s ∷ ss) all h =
      AllBounded-put state id _ all (seeded-Bounded id (s ∷ ss) (last_of s ss) h)

pub data PanelEvent : Type 0 where
  sampled : TelemetrySample → PanelEvent
  seed : Str → List TelemetrySample → PanelEvent

module _ (before : TelemetrySample → TelemetrySample → Bool) (capacity : ℕ) where
  unfoldable pub show_all : TelemetryPanelState → List PanelEvent → TelemetryPanelState
  show_all state [] = state
  show_all state (sampled sample ∷ es) = show_all (apply_panel_sample state sample capacity) es
  show_all state (seed id samples ∷ es) =
      show_all (seed_panel_samples before state id samples capacity) es

  show_all-AllBounded :
      (positive : 0 < capacity) (state : TelemetryPanelState) (es : List PanelEvent)
      → AllBounded capacity positive state
      → AllBounded capacity positive (show_all state es)
  unfolding show_all seed_panel_samples
  show_all-AllBounded positive state [] all = all
  show_all-AllBounded positive state (sampled sample ∷ es) all =
      show_all-AllBounded positive (apply_panel_sample state sample capacity) es
        (AllBounded-sample capacity positive state sample all)
  show_all-AllBounded positive state (seed id samples ∷ es) all =
      show_all-AllBounded positive (seed_panel_samples before state id samples capacity) es (
        AllBounded-seed capacity positive state id _ all
          (length-trimmed-le capacity (sort_samples before samples) positive))

  -- With a positive capacity, whatever live samples and histories the panels were given, both series of
  -- each panel are within the capacity and have the same times.
  pub show_all-Bounded :
      (es : List PanelEvent) (id : Str) (panel : DronePanelData)
      → 0 < capacity
      → get id (show_all [] es) ≡ some panel
      → Bounded capacity panel
  unfolding get
  show_all-Bounded es id panel positive h =
      show_all-AllBounded positive [] es (λ j p k. absurd (none-some k)) id panel h
