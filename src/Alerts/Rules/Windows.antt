-- ===== src/Alerts/Rules/Windows.antt =====
-- Minutes of the day, and windows that wrap round midnight.
use pawaacdrone_fleet_operat.Common.{ℕ, ◌/◌, ◌%◌, ◌<◌, ◌≡◌, not, ◌&&◌, ◌==◌, arith}
use pawaacdrone_fleet_operat.Alerts.Rules.{TimeWindow, in_window, utc_minutes, minutes_per_day}

-- The minute of the day is the number of whole minutes since 1970 modulo 1440.
pub utc_minutes-mod :
    (ms : ℕ) → (utc_minutes ms ≡ ms / 60_000 % minutes_per_day) × (utc_minutes ms < minutes_per_day)
unfolding utc_minutes
utc_minutes-mod ms = (omega arith, omega arith)

abbrev pub window : ℕ → ℕ → TimeWindow
window s e = record { start_min = s; end_min = e }

-- For distinct ends, the windows from `s` to `e` and from `e` to `s` split the day: every minute is
-- in exactly one of them, whichever of them spans midnight. With equal ends a window is empty.
in_window_split :
    (m s e : ℕ) → in_window m (window s e) ≡ (not (s == e) && not (in_window m (window e s)))
unfolding in_window
in_window_split m s e = ground arith
