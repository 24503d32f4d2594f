-- ===== src/Telemetry/Bounds.antt =====
-- services/telemetry-ingestion/src/persist/bounds.ts; `parse_date` is Date.parse, `none` for NaN.
use pawaacdrone_fleet_operat.Common.{
  ℕ, Bool, true, false, ◌&&◌, Option, none, some, Str, Dict, get, put, leb, if◌then◌else◌, Number,
  int, is_finite, num_le,
}
use pawaacdrone_fleet_operat.Telemetry.{TelemetrySample}

unfoldable pub is_percent_in_range : Number → Bool
is_percent_in_range value = is_finite value && num_le (int 0) value && num_le value (int 100)

unfoldable pub is_within_bounds : TelemetrySample → Bool
unfolding is_percent_in_range
is_within_bounds sample =
    is_percent_in_range sample.battery.remaining_pct
    && is_percent_in_range sample.rc_signal_strength

-- MonotonicTimestampGate: the last accepted time of each drone.
abbrev pub Gate : Type 0
Gate = Dict ℕ

abbrev pub is_late : Option ℕ → ℕ → Bool
is_late none ms = false
is_late (some last) ms = leb ms last

abbrev pub accept_at : Gate → Str → Option ℕ → Gate × Bool
accept_at gate drone_id none = (gate, false)
accept_at gate drone_id (some ms) =
    if is_late (get drone_id gate) ms then (gate, false) else (put drone_id ms gate, true)

module _ (parse_date : Str → Option ℕ) where
  unfoldable pub accept : Gate → TelemetrySample → Gate × Bool
  accept gate sample = accept_at gate sample.drone_id (parse_date sample.ts)
