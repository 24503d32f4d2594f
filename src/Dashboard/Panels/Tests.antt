-- ===== src/Dashboard/Panels/Tests.antt =====
-- The telemetry panels at concrete inputs.
use pawaacdrone_fleet_operat.Common.{
  true, refl, List, [], ◌∷◌, codes, Str, int, get, put, ◌===◌, text_lt, arith,
}
use pawaacdrone_fleet_operat.Telemetry.{TelemetrySample}
use pawaacdrone_fleet_operat.Dashboard.FleetMap.{is_fresh_sample}
use pawaacdrone_fleet_operat.Dashboard.Panels.{
  DronePanelData, panel_of, push_bounded, trimmed, apply_panel_sample, sort_samples, insert_sample,
  put_seeded, seeded, last_of, seed_panel_samples, battery_point, altitude_point,
}
use pawaacdrone_fleet_operat.Dashboard.Panels.Capacity.{
  PanelEvent, sampled, seed, show_all, Bounded, show_all-Bounded,
}

abbrev sample_at : Str → TelemetrySample
sample_at ts = record {
  drone_id = codes "d1";
  ts = ts;
  lat = int 1;
  lon = int 2;
  altitude = int 30;
  velocity = record { vx = int 0; vy = int 0; vz = int 0 };
  attitude = record { roll = int 0; pitch = int 0; yaw = int 0 };
  battery = record { voltage = int 12; current = int 3; remaining_pct = int 80 };
  ekf2 = record { healthy = true; flags = int 0 };
  rc_signal_strength = int 90;
  flight_mode = codes "HOVER";
  armed = true;
}

abbrev events : List PanelEvent
events =
    seed (codes "d1") (sample_at (codes "t1") ∷ [])
    ∷ sampled (sample_at (codes "t2"))
    ∷ sampled (sample_at (codes "t3"))
    ∷ sampled (sample_at (codes "t2"))
    ∷ []

-- Of three samples in time and one that is late, a capacity of 2 keeps the last two.
abbrev kept : DronePanelData
kept =
    panel_of (sample_at (codes "t3")) 2 (battery_point (sample_at (codes "t2")) ∷ [])
      (altitude_point (sample_at (codes "t2")) ∷ [])

show_all-Bounded_example : Bounded 2 kept
unfolding show_all seed_panel_samples sort_samples insert_sample put_seeded seeded last_of trimmed
    apply_panel_sample panel_of push_bounded is_fresh_sample text_lt get put ◌===◌
show_all-Bounded_example =
    show_all-Bounded (λ s t. true) 2 events (codes "d1") kept (omega arith) refl
