-- ===== src/Gateway/Permissions.antt =====
-- services/api-gateway/src/auth/route-permissions.ts. A set of roles is a list, read by membership.
pub mod Authorize
pub mod Matching
mod Tests
use pawaacdrone_fleet_operat.Common.{
  ℕ, Str, codes, Bool, true, false, not, ◌&&◌, ◌||◌, List, [], ◌∷◌, ◌++◌, Option, none, some, Dict,
  get, put, ◌===◌, ◌==◌, ltb, if◌then◌else◌, split_on, split_head, starts_with, filter, length,
  is_empty, map,
}
use pawaacdrone_fleet_operat.Gateway.{
  Role, viewer, analyst, operator, super_admin, role_privilege, role_eq, super_admin_role,
}

pub record RouteMeta : Type 0 where
  pub method : Str
  pub path : Str

abbrev pub RoutePermissionMap : Type 0
RoutePermissionMap = Dict (List Role)

-- `permitted.has(role)`
unfoldable pub has_role : List Role → Role → Bool
unfolding role_eq
has_role [] role = false
has_role (r ∷ rs) role = role_eq r role || has_role rs role

-- the loop over the roles below the requester's
unfoldable pub some_lower : List Role → ℕ → Bool
unfolding role_privilege
some_lower [] privilege = false
some_lower (r ∷ rs) privilege = ltb (role_privilege r) privilege || some_lower rs privilege

-- the decision of `authorize` for a route's permitted set
unfoldable pub permits : List Role → Role → Bool
unfolding has_role some_lower role_eq role_privilege
permits permitted role =
    if is_empty permitted
    then false
    else if has_role permitted role
    then true
    else if role_eq role super_admin_role
    then some_lower permitted (role_privilege role)
    else false

unfoldable pub path_segments : Str → List Str
path_segments path = filter (λ segment. not (is_empty segment)) (split_on b'/' path)

-- One segment against the concrete segment at its index; the index is in range.
unfoldable pub segment_matches : Str → Str → Bool
segment_matches segment concrete =
    if starts_with segment (codes ":") then not (is_empty concrete) else segment === concrete

unfoldable pub every_segment : List Str → List Str → Bool
unfolding segment_matches
every_segment [] concrete = true
every_segment (s ∷ ss) [] = false
every_segment (s ∷ ss) (c ∷ cs) = segment_matches s c && every_segment ss cs

unfoldable pub path_matches_pattern : Str → Str → Bool
unfolding path_segments every_segment
path_matches_pattern concrete_path pattern_path =
    let concrete = path_segments concrete_path in
    let segments = path_segments pattern_path in
    if not (length concrete == length segments) then false else every_segment segments concrete

-- `key.slice(0, key.indexOf(' '))`; without a space the index is -1, which drops the last unit
unfoldable pub drop_last : Str → Str
drop_last [] = []
drop_last (c ∷ []) = []
drop_last (c ∷ d ∷ s) = c ∷ drop_last (d ∷ s)

unfoldable pub has_space : Str → Bool
has_space [] = false
has_space (c ∷ s) = c == b' ' || has_space s

-- what follows the first space
unfoldable pub after_space : Str → Str
after_space [] = []
after_space (c ∷ s) = if c == b' ' then s else after_space s

unfoldable pub key_method : Str → Str
unfolding split_head
key_method key = if has_space key then split_head b' ' key else drop_last key

unfoldable pub key_path : Str → Str
key_path key = if has_space key then after_space key else key

pub record PermissionEntry : Type 0 where
  pub method : Str
  pub path : Str
  pub roles : List Role

abbrev pub readers : List Role
readers = viewer ∷ analyst ∷ operator ∷ []

abbrev pub writers : List Role
writers = operator ∷ []

abbrev pub route_permission_table : List PermissionEntry
route_permission_table =
    record { method = codes "GET"; path = codes "/fleet/drones"; roles = readers }
    ∷ record { method = codes "GET"; path = codes "/fleet/drones/:id"; roles = readers }
    ∷ record { method = codes "POST"; path = codes "/fleet/drones"; roles = writers }
    ∷ record { method = codes "PATCH"; path = codes "/fleet/drones/:id"; roles = writers }
    ∷ record { method = codes "GET"; path = codes "/missions"; roles = readers }
    ∷ record { method = codes "POST"; path = codes "/missions"; roles = writers }
    ∷ record { method = codes "PATCH"; path = codes "/missions/:id"; roles = writers }
    ∷ record { method = codes "GET"; path = codes "/telemetry/history"; roles = readers }
    ∷ record {
      method = codes "GET";
      path = codes "/vision/detections";
      roles = analyst ∷ operator ∷ [];
    }
    ∷ record { method = codes "GET"; path = codes "/alerts"; roles = readers }
    ∷ record { method = codes "POST"; path = codes "/alerts/:id/acknowledge"; roles = writers }
    ∷ []

-- `to_upper` is `String.prototype.toUpperCase`.
module _ (to_upper : Str → Str) where
  unfoldable pub route_key : RouteMeta → Str
  route_key route = to_upper route.method ++ (b' ' ∷ route.path)

  unfoldable pub authorize : Role → RouteMeta → RoutePermissionMap → Bool
  unfolding get permits route_key
  authorize role route permissions = elim (get (route_key route) permissions) [
    | none ↦ false
    | some permitted ↦ permits permitted role
  ]

  -- the loop of `matchRoute` over the keys
  unfoldable pub scan : Str → Str → Dict (List Role) → Option RouteMeta → Option RouteMeta
  unfolding key_method key_path path_matches_pattern
  scan method path [] param_match = param_match
  scan method path ((key, roles) ∷ rest) param_match =
      let found = some (record { method = method; path = key_path key }) in
      let later = scan method path rest param_match in
      let first = scan method path rest (elim param_match [
        | some m ↦ some m
        | none ↦ if path_matches_pattern path (key_path key) then found else none
      ]) in
      if not (key_method key === method)
      then later
      else if key_path key === path
      then found
      else first

  unfoldable pub match_route : RouteMeta → RoutePermissionMap → Option RouteMeta
  unfolding get scan route_key
  match_route route permissions =
      let method = to_upper route.method in
      elim (get (route_key route) permissions) [
        | some roles ↦ some (record { method = method; path = route.path })
        | none ↦ scan method route.path permissions none
      ]

  -- the loop of `buildPermissionMap`
  unfoldable pub build_from : RoutePermissionMap → List PermissionEntry → RoutePermissionMap
  unfolding put route_key
  build_from m [] = m
  build_from m (e ∷ es) =
      build_from (put (route_key (record { method = e.method; path = e.path })) e.roles m) es

  unfoldable pub build_permission_map : List PermissionEntry → RoutePermissionMap
  unfolding build_from
  build_permission_map table = build_from [] table

  -- `AuthService.authorize` of auth.service.ts, for a principal's role
  unfoldable pub service_authorize : Role → RouteMeta → RoutePermissionMap → Bool
  service_authorize role route permissions = elim (match_route route permissions) [
    | none ↦ false
    | some matched ↦ authorize role matched permissions
  ]
