-- ===== src/Gateway/Guards/Tests.antt =====
-- The guards at concrete inputs.
use pawaacdrone_fleet_operat.Common.{
  ◌≡◌, refl, [], ◌∷◌, Option, some, Str, codes, starts_with, ◌===◌,
}
use pawaacdrone_fleet_operat.Alerts.Rules.{
  Value, text, object, field, end, property, object_property,
}
use pawaacdrone_fleet_operat.Gateway.{viewer}
use pawaacdrone_fleet_operat.Gateway.Permissions.{RoutePermissionMap}
use pawaacdrone_fleet_operat.Gateway.Guards.{
  Request, authenticate, authenticated, to_auth_context, role_of, extract_bearer_token, trim,
  trim_start, trim_end, is_space,
}

-- Any token verifies, and names a viewer.
abbrev accept : Str → Str → Option Value
accept token key = some (
    object
      (field (codes "sub") (text (codes "u1")) (field (codes "role") (text (codes "viewer")) end)))

abbrev request : Request
request = record {
  authorization = some (codes "Bearer  abc ");
  method = codes "GET";
  path = codes "/fleet/drones?all";
}

abbrev table : RoutePermissionMap
table = (codes "GET /fleet/drones", viewer ∷ []) ∷ []

extract_bearer_token_test : extract_bearer_token request ≡ some (codes "abc")
unfolding extract_bearer_token starts_with trim trim_start trim_end is_space
extract_bearer_token_test = refl

authenticate_test :
    authenticate (some (codes "k")) accept request
    ≡ authenticated record { user_id = codes "u1"; role = viewer }
unfolding authenticate extract_bearer_token starts_with trim trim_start trim_end is_space
    to_auth_context role_of property object_property ◌===◌
authenticate_test = refl
