-- ===== src/Telemetry/Tests.antt =====
-- A sample that passes and is written, and the theorem at it.
use pawaacdrone_fleet_operat.Common.{
  ℕ, ◌≡◌, refl, true, [], ◌∷◌, Option, some, Str, codes, int, get, arith, length, num_le,
}
use pawaacdrone_fleet_operat.Telemetry.{TelemetrySample}
use pawaacdrone_fleet_operat.Telemetry.Bounds.{is_within_bounds, accept}
use pawaacdrone_fleet_operat.Telemetry.Persister.{
  BatchingPersister, new_persister, offer, drain, buffer,
}
use pawaacdrone_fleet_operat.Telemetry.Persister.Order.{
  offered, drained, here, next, IsOrdered, Reach-IsOrdered,
}

abbrev hover : TelemetrySample
hover = record {
  drone_id = codes "d1";
  ts = codes "t";
  lat = int 1;
  lon = int 2;
  altitude = int 30;
  velocity = record { vx = int 0; vy = int 0; vz = int 0 };
  attitude = record { roll = int 0; pitch = int 0; yaw = int 0 };
  battery = record { voltage = int 12; current = int 3; remaining_pct = int 80 };
  ekf2 = record { healthy = true; flags = int 0 };
  rc_signal_strength = int 90;
  flight_mode = codes "HOVER";
  armed = true;
}

-- Every text is read as its length.
abbrev by_length : Str → Option ℕ
by_length t = some (length t)

abbrev offered_once : BatchingPersister
offered_once = (offer by_length 1 new_persister hover).0

one_flush : offered_once.flushes ≡ 1
unfolding offer is_within_bounds num_le get accept buffer
one_flush = refl

one_written : (drain true offered_once).written ≡ hover ∷ []
unfolding offer is_within_bounds num_le get accept buffer drain
one_written = refl

Reach-IsOrdered_example : IsOrdered by_length (drain true offered_once)
Reach-IsOrdered_example =
    Reach-IsOrdered by_length 1 (drain true offered_once)
      (next (next here (offered hover)) (drained true (omega (arith, one_flush))))
