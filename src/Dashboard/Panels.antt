-- ===== src/Dashboard/Panels.antt =====
-- services/ops-dashboard/src/lib/telemetry-panel-state.ts. A state is a map from drone identifiers; the
-- geometry of the charts is not modelled. `localeCompare` of the runtime is a parameter.
pub mod Capacity
mod Tests
use pawaacdrone_fleet_operat.Common.{
  ℕ, ◌-◌, Bool, true, false, not, ◌&&◌, List, [], ◌∷◌, ◌++◌, map, Option, none, some, if◌then◌else◌,
  ltb, Str, Dict, get, put, text_lt, Number, length, drop, get_elem?, is_empty,
}
use pawaacdrone_fleet_operat.Telemetry.{TelemetrySample, Attitude, BatteryState, Ekf2State}
use pawaacdrone_fleet_operat.Dashboard.FleetMap.{is_fresh_sample}

pub record SeriesPoint : Type 0 where
  pub ts : Str
  pub value : Number

pub record DronePanelData : Type 0 where
  pub drone_id : Str
  pub latest : Option TelemetrySample
  pub battery_series : List SeriesPoint
  pub altitude_series : List SeriesPoint
  pub last_ts : Option Str

abbrev pub TelemetryPanelState : Type 0
TelemetryPanelState = Dict DronePanelData

abbrev pub default_series_capacity : ℕ
default_series_capacity = 120

-- `list.slice(list.length - capacity)` of a list that is longer than a positive capacity
unfoldable pub trimmed {ℓ} : {A : Type ℓ} → ℕ → List A → List A
trimmed capacity xs =
    if ltb 0 capacity && ltb capacity (length xs) then drop (length xs - capacity) xs else xs

unfoldable pub push_bounded : List SeriesPoint → SeriesPoint → ℕ → List SeriesPoint
unfolding trimmed
push_bounded series point capacity = trimmed capacity (series ++ (point ∷ []))

abbrev pub battery_point : TelemetrySample → SeriesPoint
battery_point sample = record { ts = sample.ts; value = sample.battery.remaining_pct }

abbrev pub altitude_point : TelemetrySample → SeriesPoint
altitude_point sample = record { ts = sample.ts; value = sample.altitude }

-- The panel after a sample, from the series so far.
unfoldable pub panel_of : TelemetrySample → ℕ → List SeriesPoint → List SeriesPoint → DronePanelData
unfolding push_bounded
panel_of sample capacity batteries altitudes = record {
  drone_id = sample.drone_id;
  latest = some sample;
  battery_series = push_bounded batteries (battery_point sample) capacity;
  altitude_series = push_bounded altitudes (altitude_point sample) capacity;
  last_ts = some sample.ts;
}

unfoldable pub apply_panel_sample : TelemetryPanelState → TelemetrySample → ℕ → TelemetryPanelState
unfolding panel_of is_fresh_sample
apply_panel_sample state sample capacity = elim (get sample.drone_id state) [
  | none ↦ put sample.drone_id (panel_of sample capacity [] []) state
  | some existing ↦
      if not (is_fresh_sample existing.last_ts sample.ts)
      then state
      else put sample.drone_id
          (panel_of sample capacity existing.battery_series existing.altitude_series) state
]

-- `sort` by a comparison, as a stable insertion sort; `before a b` is `a.ts.localeCompare(b.ts) <= 0`
unfoldable pub insert_sample :
    (TelemetrySample → TelemetrySample → Bool)
    → TelemetrySample
    → List TelemetrySample
    → List TelemetrySample
insert_sample before s [] = s ∷ []
insert_sample before s (t ∷ ts) = if before s t then s ∷ t ∷ ts else t ∷ insert_sample before s ts

unfoldable pub sort_samples :
    (TelemetrySample → TelemetrySample → Bool) → List TelemetrySample → List TelemetrySample
unfolding insert_sample
sort_samples before [] = []
sort_samples before (s ∷ ss) = insert_sample before s (sort_samples before ss)

-- The panel of sorted and trimmed samples; there is a last one.
unfoldable pub seeded : Str → List TelemetrySample → TelemetrySample → DronePanelData
seeded id samples latest = record {
  drone_id = id;
  latest = some latest;
  battery_series = map battery_point samples;
  altitude_series = map altitude_point samples;
  last_ts = some latest.ts;
}

unfoldable pub last_of : TelemetrySample → List TelemetrySample → TelemetrySample
last_of s [] = s
last_of s (t ∷ ts) = last_of t ts

unfoldable pub put_seeded : TelemetryPanelState → Str → List TelemetrySample → TelemetryPanelState
unfolding seeded last_of
put_seeded state id [] = state
put_seeded state id (s ∷ ss) = put id (seeded id (s ∷ ss) (last_of s ss)) state

unfoldable pub seed_panel_samples :
    (TelemetrySample → TelemetrySample → Bool)
    → TelemetryPanelState
    → Str
    → List TelemetrySample
    → ℕ
    → TelemetryPanelState
unfolding sort_samples put_seeded trimmed
seed_panel_samples before state id samples capacity =
    put_seeded state id (trimmed capacity (sort_samples before samples))

unfoldable pub get_drone_panel : TelemetryPanelState → Option Str → Option DronePanelData
get_drone_panel state none = none
get_drone_panel state (some id) = get id state

unfoldable pub latest_attitude : Option DronePanelData → Option Attitude
latest_attitude none = none
latest_attitude (some panel) = elim panel.latest [ none ↦ none | some s ↦ some s.attitude ]

unfoldable pub latest_battery : Option DronePanelData → Option BatteryState
latest_battery none = none
latest_battery (some panel) = elim panel.latest [ none ↦ none | some s ↦ some s.battery ]

unfoldable pub latest_ekf2 : Option DronePanelData → Option Ekf2State
latest_ekf2 none = none
latest_ekf2 (some panel) = elim panel.latest [ none ↦ none | some s ↦ some s.ekf2 ]
