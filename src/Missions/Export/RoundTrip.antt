-- ===== src/Missions/Export/RoundTrip.antt =====
-- Parsing what the binary export writes.
pub mod Missions
use pawaacdrone_fleet_operat.Common.{
  ℕ, zero, suc, ◌+◌, ◌-◌, ◌*◌, ◌/◌, ◌≤◌, ◌<◌, ◌≡◌, ◌∙◌, refl, sym, ap, Bool, true, false, not, ◌&&◌,
  List, [], ◌∷◌, ◌++◌, some, if◌then◌else◌, ◌==◌, leb, ltb, Number, ℤ, pos, negsuc, nan, infinity,
  neg_infinity, ratio, int, length, every, drop, take, All, arith,
}
use pawaacdrone_fleet_operat.Missions.{Waypoint}
use pawaacdrone_fleet_operat.Missions.Export.Bytes.{
  le_bytes, le_value, write_int32, read_int32, int32_fits, IsInt32, IsInt32-fits, write_int32_bound,
  read_int32-write_int32, le_value-le_bytes_2, le_value-le_bytes_4,
}
use pawaacdrone_fleet_operat.Missions.Export.{
  FloatIo, MavlinkMissionItem, magic, item_bytes, all_bytes, item_fits, header_bytes, encode_binary,
  read_float_at, read_item, read_items, Parsed, parsed, parse_mavlink,
}

le_value_byte : (b : ℕ) → le_value (b ∷ []) ≡ b
unfolding le_value
le_value_byte b = omega arith

module _ (io : FloatIo) (pattern : (v : Number) → io.write_float v < 4294967296) where
  -- A number that a 32-bit float holds.
  abbrev pub IsFloat : Number → Type 0
  IsFloat v = io.read_float (io.write_float v) ≡ v

  pub record Storable (item : MavlinkMissionItem) : Type 0 where
    pub param1 : IsFloat item.param1
    pub param2 : IsFloat item.param2
    pub param3 : IsFloat item.param3
    pub param4 : IsFloat item.param4
    pub x : IsInt32 item.x
    pub y : IsInt32 item.y
    pub z : IsFloat item.z
    pub seq : item.seq < 65536
    pub command : item.command < 65536
    pub target_system : item.target_system < 256
    pub target_component : item.target_component < 256
    pub frame : item.frame < 256
    pub current : item.current < 256
    pub autocontinue : item.autocontinue < 256
    pub mission_type : item.mission_type < 256

  float_back :
      (v : Number) → IsFloat v → io.read_float (le_value (le_bytes 4 (io.write_float v))) ≡ v
  float_back v h = ap io.read_float (le_value-le_bytes_4 _ (pattern v)) ∙ h

  int_back : (x : Number) → IsInt32 x → read_int32 (le_value (le_bytes 4 (write_int32 x))) ≡ x
  int_back x h =
      ap read_int32 (le_value-le_bytes_4 _ (write_int32_bound x h)) ∙ read_int32-write_int32 x h

  read_item-item_bytes :
      (item : MavlinkMissionItem) (rest : List ℕ)
      → Storable item
      → read_item io (item_bytes io item ++ rest) ≡ item
  unfolding read_item read_float_at item_bytes le_bytes
  read_item-item_bytes item rest s = λ i. record {
    param1 = float_back item.param1 s.param1 i;
    param2 = float_back item.param2 s.param2 i;
    param3 = float_back item.param3 s.param3 i;
    param4 = float_back item.param4 s.param4 i;
    x = int_back item.x s.x i;
    y = int_back item.y s.y i;
    z = float_back item.z s.z i;
    seq = le_value-le_bytes_2 item.seq s.seq i;
    command = le_value-le_bytes_2 item.command s.command i;
    target_system = le_value_byte item.target_system i;
    target_component = le_value_byte item.target_component i;
    frame = le_value_byte item.frame i;
    current = le_value_byte item.current i;
    autocontinue = le_value_byte item.autocontinue i;
    mission_type = le_value_byte item.mission_type i;
  }

  drop-item_bytes :
      (item : MavlinkMissionItem) (rest : List ℕ) → drop 38 (item_bytes io item ++ rest) ≡ rest
  unfolding item_bytes le_bytes
  drop-item_bytes item rest = refl

  length-item_bytes :
      (item : MavlinkMissionItem) (rest : List ℕ)
      → length (item_bytes io item ++ rest) ≡ 38 + length rest
  unfolding item_bytes le_bytes
  length-item_bytes item rest = omega arith

  length-all_bytes :
      (items : List MavlinkMissionItem) → length (all_bytes io items) ≡ length items * 38
  unfolding all_bytes
  length-all_bytes [] = refl
  length-all_bytes (item ∷ items) =
      omega (arith, length-item_bytes item (all_bytes io items), length-all_bytes items)

  read_items-all_bytes :
      (items : List MavlinkMissionItem)
      → All Storable items
      → read_items io (length items) (all_bytes io items) ≡ items
  unfolding read_items all_bytes
  read_items-all_bytes [] s = refl
  read_items-all_bytes (item ∷ items) (s, ss) = λ i.
      read_item-item_bytes item (all_bytes io items) s i
      ∷ (ap (read_items io (length items)) (drop-item_bytes item (all_bytes io items))
            ∙ read_items-all_bytes items ss)
          i

  Storable-fits : (item : MavlinkMissionItem) → Storable item → item_fits io item ≡ true
  unfolding item_fits
  Storable-fits item s =
      let a = IsInt32-fits item.x s.x in
      let b = IsInt32-fits item.y s.y in
      let c = s.seq in
      let d = s.command in
      let e = s.target_system in
      let f = s.target_component in
      let g = s.frame in
      let h = s.current in let k = s.autocontinue in let l = s.mission_type in ground arith

  every-item_fits :
      (items : List MavlinkMissionItem) → All Storable items → every (item_fits io) items ≡ true
  every-item_fits [] s = refl
  every-item_fits (item ∷ items) (s, ss) = rw (Storable-fits item s) (every-item_fits items ss)

  header_count :
      (n : ℕ) (body : List ℕ)
      → n < 65536
      → le_value (take 2 (drop 6 (header_bytes io n ++ body))) ≡ n
  unfolding header_bytes le_bytes
  header_count n body h = le_value-le_bytes_2 n h

  -- A buffer with a header for `n` items and `n` items' length of bytes is read.
  parse_mavlink-header :
      (n : ℕ) (buffer : List ℕ)
      → le_value (take 4 buffer) ≡ magic
      → le_value (take 1 (drop 4 buffer)) ≡ 1
      → le_value (take 2 (drop 6 buffer)) ≡ n
      → length buffer ≡ 8 + n * 38
      → parse_mavlink io buffer ≡ parsed (read_items io n (drop 8 buffer))
  unfolding parse_mavlink
  parse_mavlink-header n buffer m v c l = ground arith

  parse_mavlink-bytes :
      (n : ℕ) (body : List ℕ)
      → n < 65536
      → length body ≡ n * 38
      → parse_mavlink io (header_bytes io n ++ body) ≡ parsed (read_items io n body)
  unfolding header_bytes le_bytes le_value
  parse_mavlink-bytes n body h e =
      parse_mavlink-header n (header_bytes io n ++ body) refl refl (header_count n body h)
        (omega (arith, e))

  -- Parsing the bytes of storable items gives the items.
  pub parse_mavlink-encode :
      (items : List MavlinkMissionItem)
      → length items < 65536
      → All Storable items
      → (bytes : List ℕ) × (encode_binary io items ≡ some bytes)
        × (parse_mavlink io bytes ≡ parsed items)
  unfolding encode_binary
  parse_mavlink-encode items few s = (
    header_bytes io (length items) ++ all_bytes io items,
    let fit = every-item_fits items s in ground arith,
    parse_mavlink-bytes (length items) (all_bytes io items) few (length-all_bytes items)
        ∙ ap parsed (read_items-all_bytes items s),
  )
