-- ===== src/Telemetry/Anomaly.antt =====
-- services/telemetry-ingestion/src/anomaly: detector.ts and pipeline.ts. Differences and quotients of
-- doubles and `Date.parse` are parameters; the text of an anomaly's detail is not modelled.
pub mod History
mod Tests
use pawaacdrone_fleet_operat.Common.{
  ℕ, suc, ◌+◌, ◌/◌, ◌%◌, max, Bool, true, false, not, ◌&&◌, ◌||◌, List, [], ◌∷◌, ◌++◌, Option, none,
  some, if◌then◌else◌, ◌==◌, ltb, Str, Dict, get, put, delete, get_or, Number, ratio, int, nan,
  pos_part, neg_part, is_finite, num_lt, num_eq, length, drop,
}
use pawaacdrone_fleet_operat.Telemetry.{TelemetrySample}

-- packages/shared-types/src/telemetry.ts
pub data AnomalyKind : Type 0 where
  altitude_drop battery_drain_spike ekf2_degraded gps_accuracy_loss : AnomalyKind

pub record Anomaly : Type 0 where
  pub kind : AnomalyKind
  pub drone_id : Str
  pub ts : Str

-- Doubles, and `Date.parse`, which is `none` for `NaN`
pub record Runtime : Type 0 where
  pub minus : Number → Number → Number
  pub divided : Number → Number → Number
  pub parse_date : Str → Option Number

pub record AnomalyThresholds : Type 0 where
  pub alt_drop_threshold : Number
  pub battery_drain_threshold : Number

abbrev pub default_anomaly_thresholds : AnomalyThresholds
default_anomaly_thresholds = record { alt_drop_threshold = int 10; battery_drain_threshold = int 1 }

-- `flags & 0x01`: the lowest bit of the integral part, the same for a number and its negation
unfoldable pub lowest_bit : Number → ℕ
lowest_bit (ratio a b) = ((pos_part a + neg_part a) / suc b) % 2
lowest_bit _ = 0

unfoldable pub has_gps_fault : TelemetrySample → Bool
unfolding lowest_bit
has_gps_fault sample = not (lowest_bit sample.ekf2.flags == 0)

abbrev pub make_anomaly : AnomalyKind → TelemetrySample → Anomaly
make_anomaly kind sample = record { kind = kind; drone_id = sample.drone_id; ts = sample.ts }

abbrev pub flagged : TelemetrySample → Bool
flagged sample = not (num_eq sample.ekf2.flags (int 0))

unfoldable pub is_ekf2_degraded : TelemetrySample → Option TelemetrySample → Bool
is_ekf2_degraded sample none = not sample.ekf2.healthy || flagged sample
is_ekf2_degraded sample (some prev) = prev.ekf2.healthy && not sample.ekf2.healthy || flagged sample

-- `if (found) anomalies.push(...)`
abbrev pub when : Bool → AnomalyKind → TelemetrySample → List Anomaly
when found kind sample = if found then make_anomaly kind sample ∷ [] else []

-- `history[history.length - 1]`
unfoldable pub last : List TelemetrySample → Option TelemetrySample
last [] = none
last (s ∷ []) = some s
last (s ∷ t ∷ ss) = last (t ∷ ss)

-- `emitted` is what the emitter was given, in order.
pub record AnomalyPipeline : Type 0 where
  pub windows : Dict (List TelemetrySample)
  pub emitted : List Anomaly

abbrev pub new_pipeline : AnomalyPipeline
new_pipeline = record { windows = []; emitted = [] }

-- `Math.max(1, options.windowSize)`
abbrev pub window_size : ℕ → ℕ
window_size size = max 1 size

-- `push`, and `shift` above the size
unfoldable pub push_window : ℕ → List TelemetrySample → TelemetrySample → List TelemetrySample
push_window size window sample =
    let pushed = window ++ (sample ∷ []) in
    if ltb (window_size size) (length pushed) then drop 1 pushed else pushed

module _ (runtime : Runtime) where
  -- The seconds between two samples.
  unfoldable pub seconds_between : TelemetrySample → TelemetrySample → Number
  seconds_between prev sample = elim (runtime.parse_date prev.ts) [
    | none ↦ nan
    | some prev_ms ↦ elim (runtime.parse_date sample.ts) [
      | none ↦ nan
      | some sample_ms ↦ runtime.divided (runtime.minus sample_ms prev_ms) (int 1000)
    ]
  ]

  unfoldable pub rate_anomalies :
      AnomalyThresholds → TelemetrySample → TelemetrySample → Number → List Anomaly
  rate_anomalies thresholds prev sample dt =
      if is_finite dt && num_lt (int 0) dt
      then when
          (num_lt thresholds.alt_drop_threshold
            (runtime.divided (runtime.minus prev.altitude sample.altitude) dt))
          altitude_drop sample
        ++ when
            (num_lt thresholds.battery_drain_threshold (
              runtime.divided
                (runtime.minus prev.battery.remaining_pct sample.battery.remaining_pct) dt))
            battery_drain_spike sample
      else []

  -- The detection against the newest of the history.
  unfoldable pub detect_after :
      AnomalyThresholds → TelemetrySample → Option TelemetrySample → List Anomaly
  unfolding is_ekf2_degraded rate_anomalies seconds_between has_gps_fault
  detect_after thresholds sample none = when (is_ekf2_degraded sample none) ekf2_degraded sample
  detect_after thresholds sample (some prev) =
      rate_anomalies thresholds prev sample (seconds_between prev sample)
      ++ (when (is_ekf2_degraded sample (some prev)) ekf2_degraded sample
          ++ when (has_gps_fault sample && not (has_gps_fault prev)) gps_accuracy_loss sample)

  unfoldable pub detect_anomalies :
      AnomalyThresholds → TelemetrySample → List TelemetrySample → List Anomaly
  unfolding last detect_after
  detect_anomalies thresholds sample history = detect_after thresholds sample (last history)

  unfoldable pub observe :
      AnomalyThresholds → ℕ → AnomalyPipeline → TelemetrySample → AnomalyPipeline × List Anomaly
  unfolding detect_anomalies push_window
  observe thresholds size pipeline sample =
      let window = get_or (get sample.drone_id pipeline.windows) [] in
      let anomalies = detect_anomalies thresholds sample window in
      (
        record {
          windows = put sample.drone_id (push_window size window sample) pipeline.windows;
          emitted = pipeline.emitted ++ anomalies;
        },
        anomalies,
      )

unfoldable pub reset : AnomalyPipeline → Str → AnomalyPipeline
reset pipeline id = record { windows = delete id pipeline.windows; emitted = pipeline.emitted }
