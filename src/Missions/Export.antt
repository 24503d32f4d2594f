-- ===== src/Missions/Export.antt =====
-- services/mission-planning/src/export: mavlink.ts and mavlink-export.service.ts. A buffer is the list
-- of its bytes; the writes fill it from left to right. Arithmetic on doubles and the 32-bit floats
-- of a buffer are a parameter.
pub mod Bytes
pub mod RoundTrip
mod Tests
use pawaacdrone_fleet_operat.Common.{
  ℕ, zero, suc, ◌+◌, ◌-◌, ◌*◌, ◌/◌, ◌%◌, Bool, true, false, not, ◌&&◌, ◌||◌, List, [], ◌∷◌, ◌++◌,
  Option, none, some, if◌then◌else◌, ◌==◌, leb, ltb, Str, Number, ℤ, pos, negsuc, nan, infinity,
  neg_infinity, ratio, int, num_lt, length, every, drop, take, sort_by, is_empty,
}
use pawaacdrone_fleet_operat.Missions.{MissionStatus, draft, validated, archived, Waypoint, Mission}
use pawaacdrone_fleet_operat.Missions.Store.{MissionStore, find_latest}
use pawaacdrone_fleet_operat.Missions.Export.Bytes.{
  le_bytes, le_value, write_int32, read_int32, int32_fits, uint_fits,
}

-- Products of doubles, and floats of 32 bits as their bit patterns.
pub record FloatIo : Type 0 where
  pub times : Number → Number → Number
  pub fround : Number → Number
  pub write_float : Number → ℕ
  pub read_float : ℕ → Number

pub record MavlinkMissionItem : Type 0 where
  pub seq : ℕ
  pub frame : ℕ
  pub command : ℕ
  pub current : ℕ
  pub autocontinue : ℕ
  pub param1 : Number
  pub param2 : Number
  pub param3 : Number
  pub param4 : Number
  pub x : Number
  pub y : Number
  pub z : Number
  pub target_system : ℕ
  pub target_component : ℕ
  pub mission_type : ℕ

abbrev pub mav_cmd_nav_waypoint : ℕ
mav_cmd_nav_waypoint = 16

abbrev pub mav_cmd_nav_takeoff : ℕ
mav_cmd_nav_takeoff = 22

abbrev pub mav_frame_global_relative_alt_int : ℕ
mav_frame_global_relative_alt_int = 6

abbrev pub geo_scale : Number
geo_scale = int 10000000

abbrev pub magic : ℕ
magic = 1447903568

abbrev pub format_version : ℕ
format_version = 1

abbrev pub header_size : ℕ
header_size = 8

abbrev pub item_size : ℕ
item_size = 38

-- `Math.round`: to the nearest integer, a half upwards; the zero has no sign.
unfoldable pub round : Number → Number
round (ratio (pos a) b) = int ((2 * a + suc b) / (2 * suc b))
round (ratio (negsuc a) b) =
    if leb (2 * suc a) (suc b)
    then int 0
    else ratio (negsuc ((2 * suc a - suc b + 2 * suc b - 1) / (2 * suc b) - 1)) 0
round other = other

module _ (io : FloatIo) where
  unfoldable pub encode_degrees : Number → Number
  unfolding round
  encode_degrees deg = round (io.times deg geo_scale)

  unfoldable pub make_home_item : Waypoint → MavlinkMissionItem
  unfolding encode_degrees
  make_home_item first = record {
    seq = 0;
    frame = mav_frame_global_relative_alt_int;
    command = mav_cmd_nav_takeoff;
    current = 1;
    autocontinue = 1;
    param1 = int 0;
    param2 = int 0;
    param3 = int 0;
    param4 = int 0;
    x = encode_degrees first.lat;
    y = encode_degrees first.lon;
    z = io.fround first.altitude;
    target_system = 1;
    target_component = 1;
    mission_type = 0;
  }

  unfoldable pub make_waypoint_item : Waypoint → ℕ → MavlinkMissionItem
  unfolding encode_degrees
  make_waypoint_item wp seq = record {
    seq = seq;
    frame = mav_frame_global_relative_alt_int;
    command = mav_cmd_nav_waypoint;
    current = 0;
    autocontinue = 1;
    param1 = io.fround wp.loiter_time;
    param2 = int 0;
    param3 = int 0;
    param4 = io.fround wp.gimbal_angle;
    x = encode_degrees wp.lat;
    y = encode_degrees wp.lon;
    z = io.fround wp.altitude;
    target_system = 1;
    target_component = 1;
    mission_type = 0;
  }

  -- `waypoints.forEach((wp, index) => ...)`, from sequence number `seq`
  unfoldable pub waypoint_items : ℕ → List Waypoint → List MavlinkMissionItem
  unfolding make_waypoint_item
  waypoint_items seq [] = []
  waypoint_items seq (wp ∷ wps) = make_waypoint_item wp seq ∷ waypoint_items (suc seq) wps

  -- The items of the sorted waypoints; `none` is the error thrown when there are none.
  unfoldable pub items_of : List Waypoint → Option (List MavlinkMissionItem)
  unfolding make_home_item waypoint_items
  items_of [] = none
  items_of (first ∷ rest) = some (make_home_item first ∷ waypoint_items 1 (first ∷ rest))

  unfoldable pub build_mission_items : Mission → Option (List MavlinkMissionItem)
  unfolding items_of
  build_mission_items mission = items_of (sort_by (λ (wp : Waypoint). wp.seq) mission.waypoints)

  -- The writes of one item.
  unfoldable pub item_bytes : MavlinkMissionItem → List ℕ
  item_bytes item =
      le_bytes 4 (io.write_float item.param1)
      ++ (le_bytes 4 (io.write_float item.param2)
          ++ (le_bytes 4 (io.write_float item.param3)
              ++ (le_bytes 4 (io.write_float item.param4)
                  ++ (le_bytes 4 (write_int32 item.x)
                      ++ (le_bytes 4 (write_int32 item.y)
                          ++ (le_bytes 4 (io.write_float item.z)
                              ++ (le_bytes 2 item.seq
                                  ++ (le_bytes 2 item.command
                                      ++ (item.target_system ∷ item.target_component ∷ item.frame
                                          ∷ item.current ∷ item.autocontinue ∷ item.mission_type
                                          ∷ [])))))))))

  unfoldable pub all_bytes : List MavlinkMissionItem → List ℕ
  unfolding item_bytes
  all_bytes [] = []
  all_bytes (item ∷ items) = item_bytes item ++ all_bytes items

  -- No write of the item throws.
  unfoldable pub item_fits : MavlinkMissionItem → Bool
  item_fits item =
      int32_fits item.x
      && int32_fits item.y
      && uint_fits 65536 item.seq
      && uint_fits 65536 item.command
      && uint_fits 256 item.target_system
      && uint_fits 256 item.target_component
      && uint_fits 256 item.frame
      && uint_fits 256 item.current
      && uint_fits 256 item.autocontinue
      && uint_fits 256 item.mission_type

  unfoldable pub header_bytes : ℕ → List ℕ
  header_bytes count = le_bytes 4 magic ++ (format_version ∷ 0 ∷ le_bytes 2 count)

  -- `none` is the `RangeError` of a write.
  unfoldable pub encode_binary : List MavlinkMissionItem → Option (List ℕ)
  unfolding all_bytes item_fits header_bytes
  encode_binary items =
      if uint_fits 65536 (length items) && every item_fits items
      then some (header_bytes (length items) ++ all_bytes items)
      else none

  -- `buffer.readFloatLE(offset + at)` where `rest` is the buffer from `offset` on.
  unfoldable pub read_float_at : ℕ → List ℕ → Number
  read_float_at at rest = io.read_float (le_value (take 4 (drop at rest)))

  unfoldable pub read_item : List ℕ → MavlinkMissionItem
  unfolding read_float_at
  read_item rest = record {
    param1 = read_float_at 0 rest;
    param2 = read_float_at 4 rest;
    param3 = read_float_at 8 rest;
    param4 = read_float_at 12 rest;
    x = read_int32 (le_value (take 4 (drop 16 rest)));
    y = read_int32 (le_value (take 4 (drop 20 rest)));
    z = read_float_at 24 rest;
    seq = le_value (take 2 (drop 28 rest));
    command = le_value (take 2 (drop 30 rest));
    target_system = le_value (take 1 (drop 32 rest));
    target_component = le_value (take 1 (drop 33 rest));
    frame = le_value (take 1 (drop 34 rest));
    current = le_value (take 1 (drop 35 rest));
    autocontinue = le_value (take 1 (drop 36 rest));
    mission_type = le_value (take 1 (drop 37 rest));
  }

  -- The loop, with `count` items to go.
  unfoldable pub read_items : ℕ → List ℕ → List MavlinkMissionItem
  unfolding read_item
  read_items zero rest = []
  read_items (suc count) rest = read_item rest ∷ read_items count (drop item_size rest)

pub data Parsed : Type 0 where
  too_small bad_magic bad_version bad_length : Parsed
  parsed : List MavlinkMissionItem → Parsed

unfoldable pub parse_mavlink : FloatIo → List ℕ → Parsed
parse_mavlink io buffer =
    if ltb (length buffer) header_size
    then too_small
    else if not (le_value (take 4 buffer) == magic)
    then bad_magic
    else if not (le_value (take 1 (drop 4 buffer)) == format_version)
    then bad_version
    else let count = le_value (take 2 (drop 6 buffer)) in
      if not (length buffer == header_size + count * item_size)
      then bad_length
      else parsed (read_items io count (drop header_size buffer))

pub data MavlinkFormat : Type 0 where
  json binary : MavlinkFormat

pub record MavlinkMission : Type 0 where
  pub format : MavlinkFormat
  pub items : List MavlinkMissionItem
  pub bytes : Option (List ℕ)

-- `none` is a thrown error.
unfoldable pub export_mavlink : FloatIo → Mission → MavlinkFormat → Option MavlinkMission
export_mavlink io mission format = elim (build_mission_items io mission) [
  | none ↦ none
  | some items ↦ elim format [
    | json ↦ some record { format = json; items = items; bytes = none }
    | binary ↦ elim (encode_binary io items) [
      | none ↦ none
      | some bytes ↦ some record { format = binary; items = items; bytes = some bytes }
    ]
  ]
]

pub data ExportResult : Type 0 where
  not_found unprocessable threw : ExportResult
  -- how many conflicts
  conflict : ℕ → ExportResult
  exported : MavlinkMission → ExportResult

abbrev pub is_validated : MissionStatus → Bool
is_validated validated = true
is_validated _ = false

abbrev pub export_or_throw : Option MavlinkMission → ExportResult
export_or_throw none = threw
export_or_throw (some mission) = exported mission

-- `count_conflicts` is how many conflicts `GeofenceService.detectConflicts` finds on the waypoints.
unfoldable pub export_found : FloatIo → (List Waypoint → ℕ) → Mission → MavlinkFormat → ExportResult
export_found io count_conflicts mission format =
    if not (is_validated mission.status)
    then unprocessable
    else if ltb 0 (count_conflicts mission.waypoints)
    then conflict (count_conflicts mission.waypoints)
    else export_or_throw (export_mavlink io mission format)

unfoldable pub export_mission :
    FloatIo → (List Waypoint → ℕ) → MissionStore → Str → MavlinkFormat → ExportResult
export_mission io count_conflicts missions id format = elim (find_latest missions id) [
  | none ↦ not_found
  | some mission ↦ export_found io count_conflicts mission format
]
