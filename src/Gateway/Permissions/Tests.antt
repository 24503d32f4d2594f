-- ===== src/Gateway/Permissions/Tests.antt =====
-- The gateway's own permission table at concrete requests.
use pawaacdrone_fleet_operat.Common.{
  ◌≡◌, refl, Str, codes, true, false, List, some, get, ◌===◌, ◌-◌, map, leb, ◌&&◌, if◌then◌else◌,
  split_on, starts_with, ◌↔◌,
}
use pawaacdrone_fleet_operat.Gateway.{Role, viewer, operator, super_admin}
use pawaacdrone_fleet_operat.Gateway.Permissions.{
  RouteMeta, RoutePermissionMap, route_permission_table, route_key, authorize, match_route,
  service_authorize, build_permission_map, path_matches_pattern, has_space, after_space,
}
use pawaacdrone_fleet_operat.Gateway.Permissions.Authorize.{
  Granted, authorize_iff, authorize-monotone,
}
use pawaacdrone_fleet_operat.Gateway.Permissions.Matching.{Covers, service_authorize-Granted}

-- ASCII
abbrev upper : Str → Str
upper = map (λ c. if leb b'a' c && leb c b'z' then c - 32 else c)

default_route_permissions : RoutePermissionMap
unfolding build_permission_map ◌===◌
default_route_permissions = build_permission_map upper route_permission_table

abbrev patch_drone : RouteMeta
patch_drone = record { method = codes "patch"; path = codes "/fleet/drones/17/" }

service_authorize_test :
    (service_authorize upper operator patch_drone default_route_permissions ≡ true)
    × (service_authorize upper viewer patch_drone default_route_permissions ≡ false)
    × (service_authorize upper super_admin patch_drone default_route_permissions ≡ true)
unfolding default_route_permissions service_authorize authorize match_route path_matches_pattern
    ◌===◌ has_space split_on starts_with after_space
service_authorize_test = (refl, refl, refl)

authorize_iff_example :
    (authorize upper viewer
        (record { method = codes "GET"; path = codes "/alerts" })
        default_route_permissions
      ≡ true)
    ↔ ((roles : List Role) × (get
            (route_key upper (record { method = codes "GET"; path = codes "/alerts" }))
            default_route_permissions
          ≡ some roles)
        × Granted roles viewer)
authorize_iff_example =
    authorize_iff upper viewer (record { method = codes "GET"; path = codes "/alerts" })
      default_route_permissions

authorize-monotone_example :
    authorize upper super_admin
      (record { method = codes "GET"; path = codes "/alerts" })
      default_route_permissions
    ≡ true
unfolding default_route_permissions authorize ◌===◌
authorize-monotone_example =
    authorize-monotone upper viewer (record { method = codes "GET"; path = codes "/alerts" })
      default_route_permissions refl

service_authorize-Granted_example :
    (m : RouteMeta) × (roles : List Role) × (m.method ≡ codes "PATCH")
    × Covers m.path (codes "/fleet/drones/17/")
    × (get (route_key upper m) default_route_permissions ≡ some roles)
    × Granted roles operator
service_authorize-Granted_example =
    service_authorize-Granted upper operator patch_drone default_route_permissions
      service_authorize_test.0
