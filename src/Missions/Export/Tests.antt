-- ===== src/Missions/Export/Tests.antt =====
-- An export at concrete inputs, with floats that hold the whole numbers of 32 bits.
use pawaacdrone_fleet_operat.Common.{
  ℕ, zero, suc, ℤ, pos_part, neg_part, ◌*◌, ◌/◌, ◌%◌, ◌<◌, ◌≡◌, refl, List, [], ◌∷◌, some, Number,
  ratio, pos, negsuc, nan, infinity, neg_infinity, int, codes, get, ◌===◌, num_le, num_lt, sort_by,
  insert_by, counts_from, put, ap, arith,
}
use pawaacdrone_fleet_operat.Missions.{validated, Waypoint, Mission, NewMission}
use pawaacdrone_fleet_operat.Missions.Validation.{
  validate_waypoints, in_inclusive, waypoint_errors, all_waypoint_errors, validate_sequence,
}
use pawaacdrone_fleet_operat.Missions.Validation.Ranges.{Within}
use pawaacdrone_fleet_operat.Missions.Store.{
  find_latest, latest_of, max_version, get_version, snapshot, normalize_waypoints, create_version,
}
use pawaacdrone_fleet_operat.Missions.Service.{assert_valid, create_mission}
use pawaacdrone_fleet_operat.Missions.Service.History.{Request, post, handle, handle_all}
use pawaacdrone_fleet_operat.Missions.Export.{FloatIo, export_mission, binary, header_bytes}
use pawaacdrone_fleet_operat.Missions.Export.Bytes.{le_bytes}
use pawaacdrone_fleet_operat.Missions.Export.RoundTrip.Missions.{
  FloatLaws, Exported, export_mission-Exported,
}

abbrev whole_pattern : Number → ℕ
whole_pattern (ratio (pos a) b) = (a / suc b) % 4294967296
whole_pattern _ = 0

abbrev negated : ℕ → ℤ
negated zero = pos 0
negated (suc n) = negsuc n

abbrev product : Number → Number → Number
product (ratio (pos a) b) (ratio (pos c) d) = ratio (pos (a * c)) b
product (ratio (negsuc a) b) (ratio (pos c) d) = ratio (negated (suc a * c)) b
product _ _ = int 0

abbrev whole_io : FloatIo
whole_io = record {
  times = product;
  fround = λ v. int (whole_pattern v);
  write_float = whole_pattern;
  read_float = int;
}

whole_pattern_bound : (v : Number) → whole_pattern v < 4294967296
whole_pattern_bound (ratio (pos a) b) = omega arith
whole_pattern_bound (ratio (negsuc a) b) = omega arith
whole_pattern_bound nan = omega arith
whole_pattern_bound infinity = omega arith
whole_pattern_bound neg_infinity = omega arith

whole_pattern_again : (n : ℕ) → n < 4294967296 → whole_pattern (int n) ≡ n
whole_pattern_again n h = omega arith

pos_part-negated : (n : ℕ) → pos_part (negated n) ≡ 0
pos_part-negated zero = refl
pos_part-negated (suc n) = refl

neg_part-negated : (n : ℕ) → neg_part (negated n) ≡ n
neg_part-negated zero = refl
neg_part-negated (suc n) = refl

product-Within : (v : Number) → Within 180 v → Within 1800000000 (product v (int 10000000))
product-Within (ratio (pos a) b) (h, k) = (omega arith, omega arith)
product-Within (ratio (negsuc a) b) (h, k) = (
  omega (arith, pos_part-negated (suc a * 10000000)),
  omega (arith, neg_part-negated (suc a * 10000000)),
)
product-Within nan h = absurd h
product-Within infinity h = absurd h
product-Within neg_infinity h = absurd h

whole_io_laws : FloatLaws whole_io
whole_io_laws = record {
  pattern = whole_pattern_bound;
  reread = λ v. ap int (whole_pattern_again (whole_pattern v) (whole_pattern_bound v));
  reread_zero = refl;
  scaled = product-Within;
}

abbrev waypoint : ℕ → Waypoint
waypoint seq = record {
  seq = seq;
  lat = ratio (negsuc 170) 2;
  lon = int 3;
  altitude = int 50;
  speed = int 5;
  gimbal_angle = int 10;
  loiter_time = int 0;
}

abbrev two : List Waypoint
two = waypoint 1 ∷ waypoint 0 ∷ []

abbrev requests : List Request
requests =
    post (codes "m1") (codes "t1")
      record { name = codes "north"; status = some validated; waypoints = two }
    ∷ []

abbrev content : NewMission
content = record { name = codes "north"; status = validated; waypoints = two }

abbrev stored : Mission
stored = snapshot (codes "m1") 1 content (codes "t1")

export_mission-Exported_example :
    Exported whole_io whole_io_laws
      (int 500)
      stored
      (export_mission whole_io (λ wps. 0) (handle_all (int 500) [] requests) (codes "m1") binary)
unfolding handle_all handle create_mission assert_valid validate_waypoints all_waypoint_errors
    waypoint_errors in_inclusive validate_sequence num_le num_lt sort_by insert_by counts_from
    find_latest latest_of max_version create_version get_version get ◌===◌ put snapshot
    normalize_waypoints
export_mission-Exported_example =
    export_mission-Exported whole_io whole_io_laws (int 500) (λ wps. 0) requests (codes "m1") stored
      refl refl refl (omega arith) (omega arith)

-- The container starts with the letters P, A, M, V.
header_bytes_test : header_bytes whole_io 3 ≡ b'P' ∷ b'A' ∷ b'M' ∷ b'V' ∷ 1 ∷ 0 ∷ 3 ∷ 0 ∷ []
unfolding header_bytes le_bytes
header_bytes_test = refl
