-- ===== src/Missions/Validation/Ranges.antt =====
-- What a valid waypoint and a valid mission are, and that validation finds exactly the others.
use mathlib.Core.List.{Perm}
use mathlib.Core.List.Perm
use pawaacdrone_fleet_operat.Common.{
  ℕ, suc, ◌+◌, ◌*◌, ◌≤◌, ◌<◌, ◌≡◌, ◌↔◌, ◌∙◌, sym, ap, refl, Bool, true, false, List, [], ◌∷◌, ◌++◌,
  map, All, Number, pos, negsuc, nan, infinity, neg_infinity, ratio, int, pos_part, neg_part,
  is_finite, num_le, num_lt, sort, sort_eq, sort_by_perm, range, sort-range, counts_from,
  counts_from_iff, length, length-map, arith, subst, sort_by-length, ◌&&◌,
}
use pawaacdrone_fleet_operat.Missions.{Waypoint}
use pawaacdrone_fleet_operat.Missions.Validation.{
  WaypointValidationError, at, lat, lon, altitude, speed, gimbal_angle, loiter_time, in_inclusive,
  waypoint_errors, all_waypoint_errors, validate_sequence, unless, validate_waypoints,
}

-- A number within `k` of zero: a fraction a / (b + 1) with |a| ≤ k (b + 1).
abbrev pub Within : ℕ → Number → Type 0
Within k (ratio a b) = (pos_part a ≤ k * suc b) × (neg_part a ≤ k * suc b)
Within k _ = ⊥

abbrev pub Positive : Number → Type 0
Positive (ratio a b) = 0 < pos_part a
Positive _ = ⊥

abbrev pub NonNegative : Number → Type 0
NonNegative (ratio a b) = neg_part a ≤ 0
NonNegative _ = ⊥

-- a / (b + 1) ≤ c / (d + 1), multiplied out; the ceiling may be infinite.
abbrev pub AtMost : Number → Number → Type 0
AtMost (ratio c d) (ratio a b) =
    pos_part a * suc d + neg_part c * suc b ≤ pos_part c * suc b + neg_part a * suc d
AtMost infinity (ratio a b) = Unit
AtMost _ _ = ⊥

pub record InRange (max_altitude : Number) (wp : Waypoint) : Type 0 where
  pub lat : Within 90 wp.lat
  pub lon : Within 180 wp.lon
  pub altitude : Positive wp.altitude
  pub ceiling : AtMost max_altitude wp.altitude
  pub speed : Positive wp.speed
  pub gimbal_angle : Within 90 wp.gimbal_angle
  pub loiter_time : NonNegative wp.loiter_time

Within-iff :
    (k : ℕ) (x : Number)
    → (in_inclusive x (ratio (negsuc k) 0) (int (suc k)) ≡ true) ↔ Within (suc k) x
unfolding in_inclusive num_le
Within-iff k (ratio (pos a) b) = ground arith
Within-iff k (ratio (negsuc a) b) = ground arith
Within-iff k nan = ground arith
Within-iff k infinity = ground arith
Within-iff k neg_infinity = ground arith

Positive-iff : (x : Number) → ((is_finite x && num_lt (int 0) x) ≡ true) ↔ Positive x
unfolding num_lt
Positive-iff (ratio (pos a) b) = ground arith
Positive-iff (ratio (negsuc a) b) = ground arith
Positive-iff nan = ground arith
Positive-iff infinity = ground arith
Positive-iff neg_infinity = ground arith

NonNegative-iff : (x : Number) → ((is_finite x && num_le (int 0) x) ≡ true) ↔ NonNegative x
unfolding num_le
NonNegative-iff (ratio (pos a) b) = ground arith
NonNegative-iff (ratio (negsuc a) b) = ground arith
NonNegative-iff nan = ground arith
NonNegative-iff infinity = ground arith
NonNegative-iff neg_infinity = ground arith

AtMost-iff : (c x : Number) → ((is_finite x && num_le x c) ≡ true) ↔ AtMost c x
unfolding num_le
AtMost-iff (ratio c d) (ratio a b) = ground arith
AtMost-iff infinity (ratio a b) = ground arith
AtMost-iff neg_infinity (ratio a b) = ground arith
AtMost-iff nan (ratio a b) = ground arith
AtMost-iff (ratio a b) nan = ground arith
AtMost-iff nan nan = ground arith
AtMost-iff infinity nan = ground arith
AtMost-iff neg_infinity nan = ground arith
AtMost-iff (ratio a b) infinity = ground arith
AtMost-iff nan infinity = ground arith
AtMost-iff infinity infinity = ground arith
AtMost-iff neg_infinity infinity = ground arith
AtMost-iff (ratio a b) neg_infinity = ground arith
AtMost-iff nan neg_infinity = ground arith
AtMost-iff infinity neg_infinity = ground arith
AtMost-iff neg_infinity neg_infinity = ground arith

unless_nil :
    (b : Bool) (e : WaypointValidationError) (rest : List WaypointValidationError)
    → ((unless b e ++ rest) ≡ []) ↔ ((b ≡ true) × (rest ≡ []))
unless_nil true e rest = (λ h. (refl, h), λ h. h.1)
unless_nil false e rest = ground arith

-- The tests of one waypoint, and what they mean.
module _ (b c d e f g : Bool) (k l m n o p : WaypointValidationError) where
  six_iff :
      ((unless b k ++ (unless c l ++ (unless d m ++ (unless e n ++ (unless f o ++ unless g p)))))
        ≡ [])
      ↔ ((b ≡ true) × (c ≡ true) × (d ≡ true) × (e ≡ true) × (f ≡ true) × (g ≡ true))
  six_iff = ground arith

above_ground_iff :
    (c x : Number)
    → ((is_finite x && (num_lt (int 0) x && num_le x c)) ≡ true) ↔ (Positive x × AtMost c x)
above_ground_iff c x = ground (arith, Positive-iff x, AtMost-iff c x)

waypoint_errors_iff :
    (max_altitude : Number) (i : ℕ) (wp : Waypoint)
    → (waypoint_errors max_altitude i wp ≡ []) ↔ InRange max_altitude wp
unfolding waypoint_errors in_inclusive
waypoint_errors_iff max_altitude i wp =
    let passed =
      six_iff _ _ _ _ _ _ (at i lat) (at i lon) (at i altitude) (at i speed) (at i gimbal_angle)
        (at i loiter_time) in
    let height = above_ground_iff max_altitude wp.altitude in
    (
      λ h.
          let (a, b, c, d, e, f) = passed.0 h in
          record {
            lat = (Within-iff 89 wp.lat).0 a;
            lon = (Within-iff 179 wp.lon).0 b;
            altitude = (height.0 c).0;
            ceiling = (height.0 c).1;
            speed = (Positive-iff wp.speed).0 d;
            gimbal_angle = (Within-iff 89 wp.gimbal_angle).0 e;
            loiter_time = (NonNegative-iff wp.loiter_time).0 f;
          },
      λ r. passed.1 (
        (Within-iff 89 wp.lat).1 r.lat,
        (Within-iff 179 wp.lon).1 r.lon,
        height.1 (r.altitude, r.ceiling),
        (Positive-iff wp.speed).1 r.speed,
        (Within-iff 89 wp.gimbal_angle).1 r.gimbal_angle,
        (NonNegative-iff wp.loiter_time).1 r.loiter_time,
      ),
    )

append_nil_iff :
    (xs ys : List WaypointValidationError) → ((xs ++ ys) ≡ []) ↔ ((xs ≡ []) × (ys ≡ []))
append_nil_iff [] ys = (λ h. (refl, h), λ h. h.1)
append_nil_iff (x ∷ xs) ys = ground arith

all_waypoint_errors_iff :
    (max_altitude : Number) (i : ℕ) (wps : List Waypoint)
    → (all_waypoint_errors max_altitude i wps ≡ []) ↔ All (InRange max_altitude) wps
unfolding all_waypoint_errors
all_waypoint_errors_iff max_altitude i [] = (λ h. tt, λ h. refl)
all_waypoint_errors_iff max_altitude i (wp ∷ wps) =
    let split = append_nil_iff (waypoint_errors max_altitude i wp) _ in
    let head = waypoint_errors_iff max_altitude i wp in
    let tail = all_waypoint_errors_iff max_altitude (suc i) wps in
    (λ h. (head.0 (split.0 h).0, tail.0 (split.0 h).1), λ h. split.1 (head.1 h.0, tail.1 h.1))

validate_sequence_iff :
    (wps : List Waypoint)
    → (validate_sequence wps ≡ [])
      ↔ Perm (map (λ (wp : Waypoint). wp.seq) wps) (range 0 (length wps))
unfolding validate_sequence
validate_sequence_iff wps =
    let seqs = map (λ (wp : Waypoint). wp.seq) wps in
    let size : length (sort seqs) ≡ length wps =
      sort_by-length (λ (n : ℕ). n) seqs ∙ length-map (λ (wp : Waypoint). wp.seq) wps in
    let counted = counts_from_iff 0 (sort seqs) in
    (
      λ h.
          let e : counts_from 0 (sort seqs) ≡ true = ground arith in
          subst (Perm seqs) (counted.0 e ∙ ap (range 0) size)
            (Perm.symm (sort_by_perm (λ (n : ℕ). n) seqs)),
      λ p.
          let e : sort seqs ≡ range 0 (length (sort seqs)) =
            sort_eq p ∙ sort-range 0 (length wps) ∙ ap (range 0) (sym size) in
          let t = counted.1 e in ground arith,
    )

-- A waypoint list is valid exactly if every waypoint is in range and the sequence numbers are
-- 0, 1, ..., n - 1 in some order.
pub validate_waypoints_iff :
    (max_altitude : Number) (wps : List Waypoint)
    → (validate_waypoints wps max_altitude ≡ []) ↔ (
        All (InRange max_altitude) wps
        × Perm (map (λ (wp : Waypoint). wp.seq) wps) (range 0 (length wps)))
unfolding validate_waypoints
validate_waypoints_iff max_altitude wps =
    let split = append_nil_iff (all_waypoint_errors max_altitude 0 wps) (validate_sequence wps) in
    let ranges = all_waypoint_errors_iff max_altitude 0 wps in
    let order = validate_sequence_iff wps in
    (λ h. (ranges.0 (split.0 h).0, order.0 (split.0 h).1), λ h. split.1 (ranges.1 h.0, order.1 h.1))
