-- ===== src/Gateway/Permissions/Matching.antt =====
-- Which entry of the permission table decides a request.
use pawaacdrone_fleet_operat.Common.{
  ◌≡◌, ◌⊎◌, inl, inr, sym, ◌∙◌, ap, Str, true, false, List, [], ◌∷◌, Option, none, some, get,
  Bool-cases, Option-cases, if◌then◌else◌, Dict, ◌===◌, ===_iff,
}
use mathlib.Core.Option.{some-injective}
use pawaacdrone_fleet_operat.Gateway.{Role}
use pawaacdrone_fleet_operat.Gateway.Permissions.{
  RouteMeta, RoutePermissionMap, route_key, scan, match_route, path_matches_pattern, key_method,
  key_path, service_authorize,
}
use pawaacdrone_fleet_operat.Gateway.Permissions.Authorize.{Granted, authorize_iff}

-- The path is the route's own, or the route's path matches it as a pattern.
abbrev pub Covers : Str → Str → Type 0
Covers pattern path = (pattern ≡ path) ⊎ (path_matches_pattern path pattern ≡ true)

none-ne-some : {m : RouteMeta} → ¬ (none ≡ some m)
none-ne-some e = cc

false-ne-true : ¬ (false ≡ true)
false-ne-true e = cc

module _ (to_upper : Str → Str) where
  scan-Covers :
      (method path : Str) (entries : Dict (List Role)) (param : Option RouteMeta) (m : RouteMeta)
      → ((p : RouteMeta) → param ≡ some p → (p.method ≡ method) × Covers p.path path)
      → scan to_upper method path entries param ≡ some m
      → (m.method ≡ method) × Covers m.path path
  unfolding scan
  scan-Covers method path [] param m h e = h m e
  scan-Covers method path ((key, roles) ∷ rest) param m h e =
      elim (Bool-cases (key_method key === method)) [
        | inr other ↦ scan-Covers method path rest param m h (rw (other, scan) at e)
        | inl same ↦ elim (Bool-cases (key_path key === path)) [
          | inl exact ↦
              let found = some-injective _ _ (rw (same, exact, scan) at e) in
              (
                ap (λ (r : RouteMeta). r.method) (sym found),
                inl (ap (λ (r : RouteMeta). r.path) (sym found) ∙ (===_iff _ _).0 exact),
              )
          | inr differs ↦
              scan-Covers method path rest _ m (λ p q. kept param p h q)
                (rw (same, differs, scan) at e)
        ]
      ]
    where
      kept :
          (o : Option RouteMeta) (p : RouteMeta)
          → ((q : RouteMeta) → o ≡ some q → (q.method ≡ method) × Covers q.path path)
          → (elim o [
            | some q ↦ some q
            | none ↦
                if path_matches_pattern path (key_path key)
                then some (record { method = method; path = key_path key })
                else none
          ])
            ≡ some p
          → (p.method ≡ method) × Covers p.path path
      kept (some q) p k e = k p e
      kept none p k e = elim (Bool-cases (path_matches_pattern path (key_path key))) [
        | inl fits ↦
            let found = some-injective _ _ (rw fits at e) in
            (
              ap (λ (r : RouteMeta). r.method) (sym found),
              inr (rw (ap (λ (r : RouteMeta). r.path) (sym found)) fits),
            )
        | inr no_fit ↦ absurd (none-ne-some (rw no_fit at e))
      ]

  -- A matched route has the request's method in upper case and a path that covers the request's.
  match_route-Covers :
      (route m : RouteMeta) (permissions : RoutePermissionMap)
      → match_route to_upper route permissions ≡ some m
      → (m.method ≡ to_upper route.method) × Covers m.path route.path
  unfolding match_route
  match_route-Covers route m permissions e =
      elim (Option-cases (get (route_key to_upper route) permissions)) [
        | inr (roles, known) ↦
            let found = some-injective _ _ (rw (known, match_route) at e) in
            (
              ap (λ (r : RouteMeta). r.method) (sym found),
              inl (ap (λ (r : RouteMeta). r.path) (sym found)),
            )
        | inl unknown ↦
            scan-Covers (to_upper route.method) route.path permissions none m
              (λ p q. absurd (none-ne-some q)) (rw (unknown, match_route) at e)
      ]

  -- The gateway lets a principal through only if the table has an entry, for the request's method
  -- and a path that covers the request's, that grants the principal's role.
  pub service_authorize-Granted :
      (role : Role) (route : RouteMeta) (permissions : RoutePermissionMap)
      → service_authorize to_upper role route permissions ≡ true
      → (m : RouteMeta) × (roles : List Role) × (m.method ≡ to_upper route.method)
        × Covers m.path route.path
        × (get (route_key to_upper m) permissions ≡ some roles)
        × Granted roles role
  unfolding service_authorize
  service_authorize-Granted role route permissions h =
      elim (Option-cases (match_route to_upper route permissions)) [
        | inl nothing ↦ absurd (false-ne-true (rw (nothing, service_authorize) at h))
        | inr (m, matched) ↦
            let (roles, e, g) =
              (authorize_iff to_upper role m permissions).0
                (rw (matched, service_authorize) at h) in
            let (method, covers) = match_route-Covers route m permissions matched in
            (m, roles, method, covers, e, g)
      ]
