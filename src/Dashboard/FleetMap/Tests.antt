-- ===== src/Dashboard/FleetMap/Tests.antt =====
-- The fleet map at concrete inputs.
use pawaacdrone_fleet_operat.Common.{◌≡◌, true, [], codes, Str, int, get, ===_iff, arith}
use pawaacdrone_fleet_operat.Telemetry.{TelemetrySample}
use pawaacdrone_fleet_operat.Dashboard.FleetMap.{apply_telemetry_sample}
use pawaacdrone_fleet_operat.Dashboard.FleetMap.Freshness.{apply_telemetry_sample_comm}

abbrev sample_at : Str → TelemetrySample
sample_at ts = record {
  drone_id = codes "d1";
  ts = ts;
  lat = int 1;
  lon = int 2;
  altitude = int 30;
  velocity = record { vx = int 0; vy = int 0; vz = int 0 };
  attitude = record { roll = int 0; pitch = int 0; yaw = int 0 };
  battery = record { voltage = int 12; current = int 3; remaining_pct = int 80 };
  ekf2 = record { healthy = true; flags = int 0 };
  rc_signal_strength = int 90;
  flight_mode = codes "HOVER";
  armed = true;
}

abbrev early : TelemetrySample
early = sample_at (codes "t1")

abbrev late : TelemetrySample
late = sample_at (codes "t2")

apply_telemetry_sample_comm_example :
    get (codes "d1") (apply_telemetry_sample (apply_telemetry_sample [] early) late)
    ≡ get (codes "d1") (apply_telemetry_sample (apply_telemetry_sample [] late) early)
apply_telemetry_sample_comm_example =
    apply_telemetry_sample_comm [] early late (codes "d1")
      (λ e. ground (arith, (===_iff (codes "t1") (codes "t2")).1 e))
