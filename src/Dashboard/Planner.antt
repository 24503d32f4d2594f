-- ===== src/Dashboard/Planner.antt =====
-- services/ops-dashboard/src/lib/mission-planner-state.ts: waypoints and rings. Indices are integers,
-- as the guards of a negative one show.
pub mod Sequence
pub mod Draft
pub mod Conflicts
mod Tests
use pawaacdrone_fleet_operat.Common.{
  ℕ, zero, suc, ◌+◌, ◌-◌, ◌*◌, ◌^◌, min, Bool, true, false, not, ◌&&◌, ◌||◌, List, [], ◌∷◌, ◌++◌,
  Option, none, some, get_or, if◌then◌else◌, ◌==◌, leb, ltb, Str, Number, ℤ, pos, negsuc, int,
  num_eq, length, get_elem?, drop, take, filter,
}
use pawaacdrone_fleet_operat.Missions.{Waypoint}

pub record LatLon : Type 0 where
  pub lat : Number
  pub lon : Number

-- The flight parameters that a caller may give; `none` is an absent property.
pub record Params : Type 0 where
  pub altitude : Option Number
  pub speed : Option Number
  pub gimbal_angle : Option Number
  pub loiter_time : Option Number

abbrev pub with_seq : ℕ → Waypoint → Waypoint
with_seq seq wp = record {
  seq = seq;
  lat = wp.lat;
  lon = wp.lon;
  altitude = wp.altitude;
  speed = wp.speed;
  gimbal_angle = wp.gimbal_angle;
  loiter_time = wp.loiter_time;
}

-- `resequence`, from index `index`
unfoldable pub resequence_from : ℕ → List Waypoint → List Waypoint
resequence_from index [] = []
resequence_from index (wp ∷ wps) =
    (if wp.seq == index then wp else with_seq index wp) ∷ resequence_from (suc index) wps

unfoldable pub resequence : List Waypoint → List Waypoint
unfolding resequence_from
resequence wps = resequence_from 0 wps

-- Over the defaults: altitude 50, speed 5, no gimbal angle and no loitering.
unfoldable pub add_waypoint : List Waypoint → LatLon → Params → List Waypoint
add_waypoint wps position overrides =
    wps
    ++ (record {
      seq = length wps;
      lat = position.lat;
      lon = position.lon;
      altitude = get_or overrides.altitude (int 50);
      speed = get_or overrides.speed (int 5);
      gimbal_angle = get_or overrides.gimbal_angle (int 0);
      loiter_time = get_or overrides.loiter_time (int 0);
    }
        ∷ [])

-- `waypoints.map(...)` with a change of those at `seq`. Where none is, the code copies the list.
unfoldable pub change_at : (Waypoint → Waypoint) → ℕ → List Waypoint → List Waypoint
change_at f seq [] = []
change_at f seq (wp ∷ wps) = (if not (wp.seq == seq) then wp else f wp) ∷ change_at f seq wps

unfoldable pub has_seq : ℕ → List Waypoint → Bool
has_seq seq [] = false
has_seq seq (wp ∷ wps) = wp.seq == seq || has_seq seq wps

abbrev pub moved_to : LatLon → Waypoint → Waypoint
moved_to position wp = record {
  seq = wp.seq;
  lat = position.lat;
  lon = position.lon;
  altitude = wp.altitude;
  speed = wp.speed;
  gimbal_angle = wp.gimbal_angle;
  loiter_time = wp.loiter_time;
}

unfoldable pub move_waypoint : List Waypoint → ℕ → LatLon → List Waypoint
unfolding change_at has_seq
move_waypoint wps seq position =
    if has_seq seq wps then change_at (moved_to position) seq wps else wps

pub record Patch : Type 0 where
  pub lat : Option Number
  pub lon : Option Number
  pub params : Params

abbrev pub patched : Patch → Waypoint → Waypoint
patched patch wp = record {
  seq = wp.seq;
  lat = get_or patch.lat wp.lat;
  lon = get_or patch.lon wp.lon;
  altitude = get_or patch.params.altitude wp.altitude;
  speed = get_or patch.params.speed wp.speed;
  gimbal_angle = get_or patch.params.gimbal_angle wp.gimbal_angle;
  loiter_time = get_or patch.params.loiter_time wp.loiter_time;
}

unfoldable pub update_waypoint : List Waypoint → ℕ → Patch → List Waypoint
unfolding change_at has_seq
update_waypoint wps seq patch = if has_seq seq wps then change_at (patched patch) seq wps else wps

unfoldable pub remove_waypoint : List Waypoint → ℕ → List Waypoint
unfolding resequence
remove_waypoint wps seq =
    let filtered = filter (λ (wp : Waypoint). not (wp.seq == seq)) wps in
    if length filtered == length wps then wps else resequence filtered

-- `copy.splice(i, 1)` without the element, and `copy.splice(i, 0, moved)`
abbrev pub remove_at : {A : Type 0} → ℕ → List A → List A
remove_at i xs = take i xs ++ drop (suc i) xs

abbrev pub insert_at : {A : Type 0} → ℕ → A → List A → List A
insert_at i x xs = take i xs ++ (x ∷ drop i xs)

unfoldable pub reorder_waypoints : List Waypoint → ℤ → ℤ → List Waypoint
unfolding resequence
reorder_waypoints wps (negsuc _) to_index = wps
reorder_waypoints wps (pos i) (negsuc _) = wps
reorder_waypoints wps (pos i) (pos j) =
    if leb (length wps) i || leb (length wps) j || i == j then wps else elim (get_elem? wps i) [
      | none ↦ wps
      | some moved ↦ resequence (insert_at j moved (remove_at i wps))
    ]

-- `[lon, lat]`
abbrev pub GeoPoint : Type 0
GeoPoint = Number × Number

unfoldable pub append_vertex : List GeoPoint → LatLon → List GeoPoint
append_vertex vertices point = vertices ++ ((point.lon, point.lat) ∷ [])

unfoldable pub remove_last_vertex : List GeoPoint → List GeoPoint
remove_last_vertex vertices = take (length vertices - 1) vertices

abbrev pub points_equal : GeoPoint → GeoPoint → Bool
points_equal (a, b) (c, d) = num_eq a c && num_eq b d

abbrev pub ends_meet : List GeoPoint → Bool
ends_meet polygon = elim (get_elem? polygon 0) [
  | none ↦ false
  | some first ↦ elim (get_elem? polygon (length polygon - 1)) [
    | none ↦ false
    | some last ↦ points_equal first last
  ]
]

unfoldable pub is_closed_ring : List GeoPoint → Bool
is_closed_ring polygon = if ltb (length polygon) 4 then false else ends_meet polygon

abbrev pub closed : List GeoPoint → GeoPoint → GeoPoint → List GeoPoint
closed vertices first last = if points_equal first last then vertices else vertices ++ (first ∷ [])

unfoldable pub close_ring : List GeoPoint → Option (List GeoPoint)
unfolding is_closed_ring
close_ring vertices = if ltb (length vertices) 3 then none else elim (get_elem? vertices 0) [
  | none ↦ none
  | some first ↦ elim (get_elem? vertices (length vertices - 1)) [
    | none ↦ none
    | some last ↦
        let ring = closed vertices first last in if is_closed_ring ring then some ring else none
  ]
]
