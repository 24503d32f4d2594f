-- ===== src/Missions/Templates/Tests.antt =====
-- Templates at concrete inputs.
use pawaacdrone_fleet_operat.Common.{
  text_lt, ◌≡◌, refl, [], ◌∷◌, Option, none, some, if◌then◌else◌, Str, codes, ◌===◌, Number, nan,
  int,
}
use pawaacdrone_fleet_operat.Missions.{draft}
use pawaacdrone_fleet_operat.Missions.Templates.{
  TemplateValue, text, number, TemplateWaypoint, MissionTemplate, placeholders_in, distinct, pieces,
  names_of, placeholder_at, placeholders_in_value, sort_texts, insert_text, skip_spaces, is_space,
  name_then_closing, name_run, closing, is_name_part, is_name_start, collect_placeholders,
  required_parameters, missing_in, unresolved_in, unresolved_in_value, substitute_string,
  substituted, instantiate_template, resolved_body, resolve_waypoint, resolve_numeric, number_in,
  trim,
}
use pawaacdrone_fleet_operat.Missions.Templates.Instantiation.{
  Instantiated, instantiate_template-Instantiated,
}

-- Every number is written as `7` and read as seven.
abbrev seven_text : Number → Str
seven_text n = codes "7"

abbrev read_seven : Str → Number
read_seven s = if s === codes "7" then int 7 else nan

abbrev corner : TemplateWaypoint
corner = record {
  seq = number (int 0);
  lat = text (codes " ${lat} ");
  lon = number (int 3);
  altitude = text (codes "${ altitude }");
  speed = number (int 5);
  gimbal_angle = number (int 0);
  loiter_time = number (int 0);
}

abbrev sweep : MissionTemplate
sweep = record {
  id = codes "sweep";
  name = codes "Sweep";
  description = [];
  required_params = codes "site" ∷ [];
  body = record { name = codes "Sweep of ${site}"; status = none; waypoints = corner ∷ [] };
}

abbrev with_site : Str → Str → Option TemplateValue
with_site site name =
    if name === codes "site"
    then some (text site)
    else if name === codes "lat"
    then some (number (int 7))
    else if name === codes "altitude"
    then some (text (codes "7"))
    else none

abbrev no_params : Str → Option TemplateValue
no_params name = none

scan_test :
    placeholders_in (codes "${a}$${ b_2 }${1}${c ${d}") ≡ codes "a" ∷ codes "b_2" ∷ codes "d" ∷ []
unfolding placeholders_in pieces names_of placeholder_at skip_spaces is_space name_then_closing
    name_run closing is_name_part is_name_start
scan_test = refl

missing_test : instantiate_template seven_text read_seven no_params sweep ≡ record {
  mission = none;
  missing_parameters = codes "altitude" ∷ codes "lat" ∷ codes "site" ∷ [];
  unresolved_placeholders = [];
}
unfolding instantiate_template missing_in required_parameters collect_placeholders placeholders_in
    placeholders_in_value pieces names_of placeholder_at skip_spaces is_space name_then_closing
    name_run closing is_name_part is_name_start distinct sort_texts insert_text ◌===◌ text_lt
missing_test = refl

-- A value that is itself a placeholder is not put in again.
residual_test :
    instantiate_template seven_text read_seven (with_site (codes "${x}")) sweep
    ≡ record { mission = none; missing_parameters = []; unresolved_placeholders = codes "x" ∷ [] }
unfolding instantiate_template missing_in required_parameters collect_placeholders placeholders_in
    placeholders_in_value pieces names_of placeholder_at skip_spaces is_space name_then_closing
    name_run closing is_name_part is_name_start distinct sort_texts insert_text ◌===◌ text_lt
    unresolved_in unresolved_in_value substitute_string substituted
residual_test = refl

resolved_test :
    instantiate_template seven_text read_seven (with_site (codes "Dock")) sweep ≡ record {
      mission = some (record {
        name = codes "Sweep of Dock";
        status = draft;
        waypoints =
            record {
              seq = int 0;
              lat = int 7;
              lon = int 3;
              altitude = int 7;
              speed = int 5;
              gimbal_angle = int 0;
              loiter_time = int 0;
            }
            ∷ [];
      });
      missing_parameters = [];
      unresolved_placeholders = [];
    }
unfolding instantiate_template missing_in required_parameters collect_placeholders placeholders_in
    placeholders_in_value pieces names_of placeholder_at skip_spaces is_space name_then_closing
    name_run closing is_name_part is_name_start distinct sort_texts insert_text ◌===◌ text_lt
    unresolved_in unresolved_in_value substitute_string substituted resolved_body resolve_waypoint
    resolve_numeric number_in trim
resolved_test = refl

instantiate_template-Instantiated_example :
    Instantiated seven_text read_seven
      (with_site (codes "Dock"))
      sweep
      (instantiate_template seven_text read_seven (with_site (codes "Dock")) sweep)
instantiate_template-Instantiated_example =
    instantiate_template-Instantiated seven_text read_seven (with_site (codes "Dock")) sweep
