-- ===== src/Missions/Templates.antt =====
-- services/mission-planning/src/templates: template.ts and template-substitution.ts. What `params[name]`,
-- `String(value)` and `Number(text)` give are parameters.
pub mod Instantiation
mod Tests
use pawaacdrone_fleet_operat.Common.{
  ℕ, zero, suc, ◌-◌, Bool, true, false, not, ◌&&◌, ◌||◌, ◌==◌, List, [], ◌∷◌, ◌++◌, map, Option,
  none, some, get_or, if◌then◌else◌, leb, length, take, filter, Str, ◌===◌, text_lt, Number, nan,
}
use mathlib.Core.List.{reverse}
use pawaacdrone_fleet_operat.Missions.{MissionStatus, draft}

pub data TemplateValue : Type 0 where
  text : Str → TemplateValue
  number : Number → TemplateValue

pub record TemplateWaypoint : Type 0 where
  pub seq : TemplateValue
  pub lat : TemplateValue
  pub lon : TemplateValue
  pub altitude : TemplateValue
  pub speed : TemplateValue
  pub gimbal_angle : TemplateValue
  pub loiter_time : TemplateValue

pub record MissionTemplateBody : Type 0 where
  pub name : Str
  pub status : Option MissionStatus
  pub waypoints : List TemplateWaypoint

pub record MissionTemplate : Type 0 where
  pub id : Str
  pub name : Str
  pub description : Str
  pub required_params : List Str
  pub body : MissionTemplateBody

-- A waypoint before any check, whose `seq` may be any number.
pub record ResolvedWaypoint : Type 0 where
  pub seq : Number
  pub lat : Number
  pub lon : Number
  pub altitude : Number
  pub speed : Number
  pub gimbal_angle : Number
  pub loiter_time : Number

pub record ResolvedMissionBody : Type 0 where
  pub name : Str
  pub status : MissionStatus
  pub waypoints : List ResolvedWaypoint

pub record InstantiationResult : Type 0 where
  pub mission : Option ResolvedMissionBody
  pub missing_parameters : List Str
  pub unresolved_placeholders : List Str

-- `\s`, which is what `trim` removes too
unfoldable pub is_space : ℕ → Bool
is_space c =
    leb 9 c && leb c 13
    || c == 32
    || c == 160
    || c == 5760
    || leb 8192 c && leb c 8202
    || c == 8232
    || c == 8233
    || c == 8239
    || c == 8287
    || c == 12288
    || c == 65279

-- `[A-Za-z_]` and `[A-Za-z0-9_]`
unfoldable pub is_name_start : ℕ → Bool
is_name_start c = leb 65 c && leb c 90 || leb 97 c && leb c 122 || c == 95

unfoldable pub is_name_part : ℕ → Bool
unfolding is_name_start
is_name_part c = is_name_start c || leb 48 c && leb c 57

unfoldable pub skip_spaces : Str → Str
unfolding is_space
skip_spaces [] = []
skip_spaces (c ∷ s) = if is_space c then skip_spaces s else c ∷ s

-- `text.trim()`
unfoldable pub trim : Str → Str
unfolding skip_spaces
trim s = reverse (skip_spaces (reverse (skip_spaces s)))

-- The longest run of name characters, and what follows it.
unfoldable pub name_run : Str → Str × Str
unfolding is_name_part
name_run [] = ([], [])
name_run (c ∷ s) =
    let (name, rest) = name_run s in if is_name_part c then (c ∷ name, rest) else ([], c ∷ s)

-- The end of a placeholder: the text after it.
unfoldable pub closing : Str → Option Str
closing [] = none
closing (c ∷ s) = if c == b'}' then some s else none

unfoldable pub name_then_closing : Str → Option (Str × Str)
unfolding is_name_start name_run skip_spaces closing
name_then_closing [] = none
name_then_closing (c ∷ s) =
    let (name, rest) = name_run s in
    if is_name_start c
    then elim (closing (skip_spaces rest)) [ none ↦ none | some after ↦ some (c ∷ name, after) ]
    else none

-- A match of `PLACEHOLDER_SOURCE` at the start of a text: the name, and the text after the match.
unfoldable pub placeholder_at : Str → Option (Str × Str)
unfolding name_then_closing skip_spaces
placeholder_at (c ∷ d ∷ s) =
    if c == b'$' && d == b'{' then name_then_closing (skip_spaces s) else none
placeholder_at _ = none

pub data Piece : Type 0 where
  unit : ℕ → Piece
  placeholder : Str → Str → Piece

-- The matches of a text from the left, with the rest of its code units. The first argument counts
-- the code units that the last match still covers.
unfoldable pub pieces : ℕ → Str → List Piece
unfolding placeholder_at
pieces k [] = []
pieces (suc k) (c ∷ s) = pieces k s
pieces zero (c ∷ s) = elim (placeholder_at (c ∷ s)) [
  | none ↦ unit c ∷ pieces zero s
  | some (name, after) ↦
      placeholder name (take (suc (length s - length after)) (c ∷ s))
      ∷ pieces (length s - length after) s
]

unfoldable pub names_of : List Piece → List Str
names_of [] = []
names_of (unit c ∷ ps) = names_of ps
names_of (placeholder name whole ∷ ps) = name ∷ names_of ps

unfoldable pub placeholders_in : Str → List Str
unfolding names_of pieces
placeholders_in s = names_of (pieces 0 s)

unfoldable pub placeholders_in_value : TemplateValue → List Str
unfolding placeholders_in
placeholders_in_value (text s) = placeholders_in s
placeholders_in_value (number n) = []

-- The values of a waypoint, in the order of their reading.
abbrev pub values_of : TemplateWaypoint → List TemplateValue
values_of wp =
    wp.seq ∷ wp.lat ∷ wp.lon ∷ wp.altitude ∷ wp.speed ∷ wp.gimbal_angle ∷ wp.loiter_time ∷ []

-- `[...new Set(list)]`: each text once, where it stands first.
unfoldable pub distinct : List Str → List Str
distinct [] = []
distinct (s ∷ texts) = s ∷ filter (λ t. not (t === s)) (distinct texts)

-- `sort()`
unfoldable pub insert_text : Str → List Str → List Str
insert_text s [] = s ∷ []
insert_text s (t ∷ texts) = if text_lt t s then t ∷ insert_text s texts else s ∷ t ∷ texts

unfoldable pub sort_texts : List Str → List Str
unfolding insert_text
sort_texts [] = []
sort_texts (s ∷ texts) = insert_text s (sort_texts texts)

-- `list.flatMap(f)`
abbrev pub flat_map {ℓ κ} : {A : Type ℓ} {B : Type κ} → (A → List B) → List A → List B
flat_map f [] = []
flat_map f (x ∷ xs) = f x ++ flat_map f xs

unfoldable pub collect_placeholders : MissionTemplate → List Str
unfolding distinct placeholders_in placeholders_in_value
collect_placeholders template = distinct (
    placeholders_in template.body.name
    ++ flat_map placeholders_in_value (flat_map values_of template.body.waypoints))

unfoldable pub required_parameters : MissionTemplate → List Str
unfolding distinct sort_texts collect_placeholders
required_parameters template =
    sort_texts (distinct (template.required_params ++ collect_placeholders template))

abbrev pub is_missing : Option TemplateValue → Bool
is_missing none = true
is_missing (some v) = false

module _ (to_text : Number → Str) (to_number : Str → Number)
    (params : Str → Option TemplateValue) where
  -- `String(value)`
  abbrev pub value_text : TemplateValue → Str
  value_text (text s) = s
  value_text (number n) = to_text n

  unfoldable pub substituted : List Piece → Str
  substituted [] = []
  substituted (unit c ∷ ps) = c ∷ substituted ps
  substituted (placeholder name whole ∷ ps) =
      elim (params name) [ none ↦ whole | some v ↦ value_text v ] ++ substituted ps

  unfoldable pub substitute_string : Str → Str
  unfolding substituted pieces
  substitute_string s = substituted (pieces 0 s)

  -- `Number(text.trim())`, where the empty text is no number
  unfoldable pub number_in : Str → Number
  unfolding skip_spaces
  number_in [] = nan
  number_in (c ∷ s) = to_number (c ∷ s)

  unfoldable pub resolve_numeric : TemplateValue → Number
  unfolding number_in substitute_string trim
  resolve_numeric (number n) = n
  resolve_numeric (text s) = number_in (trim (substitute_string s))

  unfoldable pub resolve_waypoint : TemplateWaypoint → ResolvedWaypoint
  unfolding resolve_numeric
  resolve_waypoint wp = record {
    seq = resolve_numeric wp.seq;
    lat = resolve_numeric wp.lat;
    lon = resolve_numeric wp.lon;
    altitude = resolve_numeric wp.altitude;
    speed = resolve_numeric wp.speed;
    gimbal_angle = resolve_numeric wp.gimbal_angle;
    loiter_time = resolve_numeric wp.loiter_time;
  }

  unfoldable pub unresolved_in_value : TemplateValue → List Str
  unfolding placeholders_in substitute_string
  unresolved_in_value (number n) = []
  unresolved_in_value (text s) = placeholders_in (substitute_string s)

  unfoldable pub missing_in : MissionTemplate → List Str
  unfolding required_parameters
  missing_in template = filter (λ name. is_missing (params name)) (required_parameters template)

  unfoldable pub unresolved_in : MissionTemplate → List Str
  unfolding distinct unresolved_in_value
  unresolved_in template = distinct (
      unresolved_in_value (text template.body.name)
      ++ flat_map unresolved_in_value (flat_map values_of template.body.waypoints))

  unfoldable pub resolved_body : MissionTemplate → ResolvedMissionBody
  unfolding substitute_string resolve_waypoint
  resolved_body template = record {
    name = substitute_string template.body.name;
    status = get_or template.body.status draft;
    waypoints = map resolve_waypoint template.body.waypoints;
  }

  unfoldable pub instantiate_template : MissionTemplate → InstantiationResult
  unfolding missing_in unresolved_in resolved_body sort_texts
  instantiate_template template = elim (missing_in template) [
    | m ∷ ms ↦ record { mission = none; missing_parameters = m ∷ ms; unresolved_placeholders = [] }
    | [] ↦ elim (unresolved_in template) [
      | u ∷ us ↦ record {
        mission = none;
        missing_parameters = [];
        unresolved_placeholders = sort_texts (u ∷ us);
      }
      | [] ↦ record {
        mission = some (resolved_body template);
        missing_parameters = [];
        unresolved_placeholders = [];
      }
    ]
  ]
