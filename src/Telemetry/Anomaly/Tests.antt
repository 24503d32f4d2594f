-- ===== src/Telemetry/Anomaly/Tests.antt =====
-- Anomaly detection at concrete inputs, with whole numbers for doubles.
use pawaacdrone_fleet_operat.Common.{
  ◌≤◌, ◌≡◌, refl, max, true, List, [], ◌∷◌, map, some, codes, Str, Number, int, get, put, get_or,
  length, num_eq, num_lt, ◌===◌,
}
use pawaacdrone_fleet_operat.Telemetry.{TelemetrySample}
use pawaacdrone_fleet_operat.Telemetry.Anomaly.{
  Runtime, Anomaly, ekf2_degraded, gps_accuracy_loss, default_anomaly_thresholds, new_pipeline,
  observe, reset, detect_anomalies, detect_after, rate_anomalies, seconds_between, is_ekf2_degraded,
  has_gps_fault, lowest_bit, last, push_window,
}
use pawaacdrone_fleet_operat.Telemetry.Anomaly.History.{
  PipelineEvent, seen, disconnected, run, step, expected, run_emitted,
}

abbrev whole : Runtime
whole = record {
  minus = λ a b. int 0;
  divided = λ a b. int 0;
  parse_date = λ t. some (int (length t));
}

abbrev sample_at : Str → Number → TelemetrySample
sample_at ts flags = record {
  drone_id = codes "d1";
  ts = ts;
  lat = int 1;
  lon = int 2;
  altitude = int 30;
  velocity = record { vx = int 0; vy = int 0; vz = int 0 };
  attitude = record { roll = int 0; pitch = int 0; yaw = int 0 };
  battery = record { voltage = int 12; current = int 3; remaining_pct = int 80 };
  ekf2 = record { healthy = true; flags = flags };
  rc_signal_strength = int 90;
  flight_mode = codes "HOVER";
  armed = true;
}

abbrev events : List PipelineEvent
events =
    seen (sample_at (codes "t1") (int 0))
    ∷ seen (sample_at (codes "t2") (int 3))
    ∷ seen (sample_at (codes "t3") (int 3))
    ∷ disconnected (codes "d1")
    ∷ []

-- The GPS fault is reported once, the degraded estimator each time.
run_test :
    map
      (λ (a : Anomaly). a.kind)
      (run whole default_anomaly_thresholds 2 new_pipeline events).emitted
    ≡ ekf2_degraded ∷ gps_accuracy_loss ∷ ekf2_degraded ∷ []
unfolding run step observe reset detect_anomalies detect_after rate_anomalies seconds_between
    is_ekf2_degraded has_gps_fault lowest_bit last push_window num_eq num_lt get put ◌===◌
run_test = refl

run_emitted_example :
    ((run whole default_anomaly_thresholds 2 new_pipeline events).emitted
      ≡ expected whole default_anomaly_thresholds 2 (λ j. []) events)
    × ((id : Str)
        → length (
            get_or (get id (run whole default_anomaly_thresholds 2 new_pipeline events).windows) [])
          ≤ max 1 2)
run_emitted_example = run_emitted whole default_anomaly_thresholds 2 events
