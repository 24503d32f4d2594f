-- ===== src/Missions/Export/RoundTrip/Missions.antt =====
-- A stored mission is exported in full.
use native.Mathlib.Nat.{div-lt_iff_lt-mul}
use pawaacdrone_fleet_operat.Common.{
  ℕ, suc, ◌+◌, ◌-◌, ◌*◌, ◌/◌, ◌≤◌, ◌<◌, ◌≡◌, ◌∙◌, refl, ap, List, [], ◌∷◌, some, Number, pos,
  negsuc, nan, infinity, neg_infinity, ratio, int, length, All, arith, sort_by, sort_by-length,
  sort_by-All, Str,
}
use pawaacdrone_fleet_operat.Missions.{Waypoint, Mission, validated}
use pawaacdrone_fleet_operat.Missions.Validation.Ranges.{Within, InRange}
use pawaacdrone_fleet_operat.Missions.Store.{MissionStore, find_latest}
use pawaacdrone_fleet_operat.Missions.Service.History.{Request, handle_all}
use pawaacdrone_fleet_operat.Missions.Service.History.Edits.{find_latest-Sound}
use pawaacdrone_fleet_operat.Missions.Export.Bytes.{IsInt32}
use pawaacdrone_fleet_operat.Missions.Export.{
  FloatIo, MavlinkMissionItem, geo_scale, round, encode_degrees, make_home_item, make_waypoint_item,
  waypoint_items, items_of, build_mission_items, encode_binary, parse_mavlink, parsed, binary,
  export_mavlink, ExportResult, exported, export_or_throw, export_found, export_mission,
}
use pawaacdrone_fleet_operat.Missions.Export.RoundTrip.{Storable, parse_mavlink-encode}

-- IEEE 754 and Node's buffers: a bit pattern has 32 bits, a value rounded to 32 bits is read back as
-- it is, 0 too; and a correctly rounded product of a value within 180 and 10^7 stays within
-- 1,800,000,000, which is a double.
pub record FloatLaws (io : FloatIo) : Type 0 where
  pub pattern : (v : Number) → io.write_float v < 4294967296
  pub reread : (v : Number) → io.read_float (io.write_float (io.fround v)) ≡ io.fround v
  pub reread_zero : io.read_float (io.write_float (int 0)) ≡ int 0
  pub scaled : (v : Number) → Within 180 v → Within 1800000000 (io.times v geo_scale)

quotient_bound : (n d : ℕ) → 0 < d → n < 2147483648 * d → n / d < 2147483648
quotient_bound n d z h = (div-lt_iff_lt-mul z).1 (omega arith)

round-IsInt32 : (v : Number) → Within 1800000000 v → IsInt32 (round v)
unfolding round
round-IsInt32 (ratio (pos a) b) (h, k) =
    quotient_bound (2 * a + suc b) (2 * suc b) (omega arith) (omega arith)
round-IsInt32 (ratio (negsuc a) b) (h, k) =
    let bound =
      quotient_bound (2 * suc a - suc b + 2 * suc b - 1) (2 * suc b) (omega arith) (omega arith) in
    ground arith
round-IsInt32 nan h = absurd h
round-IsInt32 infinity h = absurd h
round-IsInt32 neg_infinity h = absurd h

Within-wider : (v : Number) → Within 90 v → Within 180 v
Within-wider (ratio a b) (h, k) = (omega arith, omega arith)
Within-wider nan h = h
Within-wider infinity h = h
Within-wider neg_infinity h = h

module _ (io : FloatIo) (laws : FloatLaws io) where
  encode_degrees-IsInt32 : (v : Number) → Within 180 v → IsInt32 (encode_degrees io v)
  unfolding encode_degrees
  encode_degrees-IsInt32 v h = round-IsInt32 _ (laws.scaled v h)

  module _ (max_altitude : Number) where
    make_waypoint_item-Storable :
        (wp : Waypoint) (seq : ℕ)
        → InRange max_altitude wp
        → seq < 65536
        → Storable io laws.pattern (make_waypoint_item io wp seq)
    unfolding make_waypoint_item
    make_waypoint_item-Storable wp seq r h = record {
      param1 = laws.reread wp.loiter_time;
      param2 = laws.reread_zero;
      param3 = laws.reread_zero;
      param4 = laws.reread wp.gimbal_angle;
      x = encode_degrees-IsInt32 wp.lat (Within-wider wp.lat r.lat);
      y = encode_degrees-IsInt32 wp.lon r.lon;
      z = laws.reread wp.altitude;
      seq = h;
      command = omega arith;
      target_system = omega arith;
      target_component = omega arith;
      frame = omega arith;
      current = omega arith;
      autocontinue = omega arith;
      mission_type = omega arith;
    }

    make_home_item-Storable :
        (wp : Waypoint) → InRange max_altitude wp → Storable io laws.pattern (make_home_item io wp)
    unfolding make_home_item
    make_home_item-Storable wp r = record {
      param1 = laws.reread_zero;
      param2 = laws.reread_zero;
      param3 = laws.reread_zero;
      param4 = laws.reread_zero;
      x = encode_degrees-IsInt32 wp.lat (Within-wider wp.lat r.lat);
      y = encode_degrees-IsInt32 wp.lon r.lon;
      z = laws.reread wp.altitude;
      seq = omega arith;
      command = omega arith;
      target_system = omega arith;
      target_component = omega arith;
      frame = omega arith;
      current = omega arith;
      autocontinue = omega arith;
      mission_type = omega arith;
    }

    waypoint_items-Storable :
        (seq : ℕ) (wps : List Waypoint)
        → All (InRange max_altitude) wps
        → seq + length wps ≤ 65536
        → All (Storable io laws.pattern) (waypoint_items io seq wps)
    unfolding waypoint_items
    waypoint_items-Storable seq [] rs h = tt
    waypoint_items-Storable seq (wp ∷ wps) (r, rs) h = (
      make_waypoint_item-Storable wp seq r (omega arith),
      waypoint_items-Storable (suc seq) wps rs (omega arith),
    )

    length-waypoint_items :
        (seq : ℕ) (wps : List Waypoint) → length (waypoint_items io seq wps) ≡ length wps
    unfolding waypoint_items
    length-waypoint_items seq [] = refl
    length-waypoint_items seq (wp ∷ wps) = ap suc (length-waypoint_items (suc seq) wps)

    -- What a complete export is: a home item and one for each waypoint, which the bytes parse to.
    pub record Exported (mission : Mission) (r : ExportResult) : Type 0 where
      pub items : List MavlinkMissionItem
      pub bytes : List ℕ
      pub built : build_mission_items io mission ≡ some items
      pub size : length items ≡ suc (length mission.waypoints)
      pub result : r ≡ exported record { format = binary; items = items; bytes = some bytes }
      pub parse : parse_mavlink io bytes ≡ parsed items

    items_of-parse :
        (wps : List Waypoint)
        → All (InRange max_altitude) wps
        → 0 < length wps
        → length wps < 65535
        → (items : List MavlinkMissionItem) × (items_of io wps ≡ some items)
          × (length items ≡ suc (length wps))
          × (bytes : List ℕ) × (encode_binary io items ≡ some bytes)
          × (parse_mavlink io bytes ≡ parsed items)
    unfolding items_of
    items_of-parse [] rs h k = absurd (omega arith)
    items_of-parse (wp ∷ wps) (r, rs) h k =
        let items = make_home_item io wp ∷ waypoint_items io 1 (wp ∷ wps) in
        let size : length items ≡ suc (length (wp ∷ wps)) =
          ap suc (length-waypoint_items 1 (wp ∷ wps)) in
        let (bytes, e, p) = parse_mavlink-encode io laws.pattern items (omega arith) (
          make_home_item-Storable wp r,
          waypoint_items-Storable 1 (wp ∷ wps) (r, rs) (omega arith),
        ) in
        (items, refl, size, bytes, e, p)

    export_mavlink-binary :
        (mission : Mission) (items : List MavlinkMissionItem) (bytes : List ℕ)
        → build_mission_items io mission ≡ some items
        → encode_binary io items ≡ some bytes
        → export_mavlink io mission binary
          ≡ some record { format = binary; items = items; bytes = some bytes }
    unfolding export_mavlink
    export_mavlink-binary mission items bytes b e = rw (b, export_mavlink) (rw (e) refl)

    export_found-validated :
        (count_conflicts : List Waypoint → ℕ) (mission : Mission)
        → mission.status ≡ validated
        → count_conflicts mission.waypoints ≡ 0
        → export_found io count_conflicts mission binary
          ≡ export_or_throw (export_mavlink io mission binary)
    unfolding export_found
    export_found-validated count_conflicts mission v c = rw (v) (rw (c) refl)

    export_mission-found :
        (count_conflicts : List Waypoint → ℕ) (missions : MissionStore) (id : Str)
        (mission : Mission)
        → find_latest missions id ≡ some mission
        → export_mission io count_conflicts missions id binary
          ≡ export_found io count_conflicts mission binary
    unfolding export_mission
    export_mission-found count_conflicts missions id mission f = rw (f, export_mission) refl

    -- After any requests, the binary export of a mission whose latest version is validated, free of
    -- conflicts and has between 1 and 65,534 waypoints succeeds: it has a home item and one item for
    -- each waypoint, and its bytes parse to those items.
    pub export_mission-Exported :
        (count_conflicts : List Waypoint → ℕ) (rs : List Request) (id : Str) (mission : Mission)
        → find_latest (handle_all max_altitude [] rs) id ≡ some mission
        → mission.status ≡ validated
        → count_conflicts mission.waypoints ≡ 0
        → 0 < length mission.waypoints
        → length mission.waypoints < 65535
        → Exported mission
            (export_mission io count_conflicts (handle_all max_altitude [] rs) id binary)
    unfolding build_mission_items
    export_mission-Exported count_conflicts rs id mission f v c h k =
        let sound = find_latest-Sound max_altitude rs id mission f in
        let seq_of = λ (wp : Waypoint). wp.seq in
        let size = sort_by-length seq_of mission.waypoints in
        let (items, built, count, bytes, e, p) =
          items_of-parse (sort_by seq_of mission.waypoints)
            (sort_by-All seq_of (InRange max_altitude) mission.waypoints sound.ranges)
            (omega (arith, size)) (omega (arith, size)) in
        record {
          items = items;
          bytes = bytes;
          built = built;
          size = count ∙ ap suc size;
          result =
              export_mission-found count_conflicts _ id mission f
              ∙ export_found-validated count_conflicts mission v c
              ∙ ap export_or_throw (export_mavlink-binary mission items bytes built e);
          parse = p;
        }
