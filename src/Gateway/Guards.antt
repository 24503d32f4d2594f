-- ===== src/Gateway/Guards.antt =====
-- services/api-gateway/src: AuthService.authenticate of auth/auth.service.ts, the guards
-- auth/jwt-auth.guard.ts, auth/rbac.guard.ts and rate-limit/rate-limit.guard.ts, and their order on
-- the proxy, routing/proxy.controller.ts. Verifying a token is a parameter; a claim that an object
-- inherits is not modelled, nor are the informational headers.
pub mod Passed
mod Tests
use pawaacdrone_fleet_operat.Common.{
  ℕ, suc, Bool, true, false, not, ◌&&◌, ◌||◌, List, [], ◌∷◌, Option, none, some, if◌then◌else◌, Str,
  codes, ◌===◌, ◌==◌, leb, starts_with, drop, is_empty,
}
use pawaacdrone_fleet_operat.Alerts.Rules.{
  Value, undefined, null, bool, number, text, array, object, property,
}
use pawaacdrone_fleet_operat.Gateway.{Role, viewer, analyst, operator, super_admin}
use pawaacdrone_fleet_operat.Gateway.Permissions.{RouteMeta, RoutePermissionMap, service_authorize}
use pawaacdrone_fleet_operat.Gateway.RateLimit.{
  RedisCounters, RateLimitRule, RateLimitDecision, consume,
}

-- packages/shared-types/src/gateway.ts
pub record AuthContext : Type 0 where
  pub user_id : Str
  pub role : Role

-- What the guards read of a request.
pub record Request : Type 0 where
  pub authorization : Option Str
  pub method : Str
  pub path : Str

abbrev pub bearer_prefix : Str
bearer_prefix = codes "Bearer "

-- White space and line ends, as `String.prototype.trim` removes them.
unfoldable pub is_space : ℕ → Bool
is_space c =
    leb 9 c && leb c 13
    || c == 32
    || c == 160
    || c == 5760
    || leb 8192 c && leb c 8202
    || c == 8232
    || c == 8233
    || c == 8239
    || c == 8287
    || c == 12288
    || c == 65279

unfoldable pub trim_start : Str → Str
unfolding is_space
trim_start [] = []
trim_start (c ∷ s) = let rest = trim_start s in if is_space c then rest else c ∷ s

unfoldable pub trim_end : Str → Str
unfolding is_space
trim_end [] = []
trim_end (c ∷ s) = let rest = trim_end s in if is_empty rest && is_space c then [] else c ∷ rest

unfoldable pub trim : Str → Str
unfolding trim_start trim_end
trim s = trim_end (trim_start s)

abbrev pub non_empty : Str → Option Str
non_empty [] = none
non_empty (c ∷ s) = some (c ∷ s)

unfoldable pub extract_bearer_token : Request → Option Str
unfolding trim
extract_bearer_token req = elim req.authorization [
  | none ↦ none
  | some header ↦
      if not (starts_with header bearer_prefix) then none else non_empty (trim (drop 7 header))
]

-- `isRole`
unfoldable pub role_of : Value → Option Role
role_of (text s) =
    if s === codes "viewer"
    then some viewer
    else if s === codes "analyst"
    then some analyst
    else if s === codes "operator"
    then some operator
    else if s === codes "super_admin"
    then some super_admin
    else none
role_of _ = none

-- `a ?? b`
abbrev pub coalesce : Value → Value → Value
coalesce undefined b = b
coalesce null b = b
coalesce a b = a

-- A subject is a text that is not empty.
abbrev pub subject_of : Value → Option Str
subject_of (text s) = non_empty s
subject_of _ = none

-- `typeof payload === 'object' && payload !== null`
abbrev pub is_object : Value → Bool
is_object (array items) = true
is_object (object fields) = true
is_object _ = false

-- `none` is a 401.
unfoldable pub to_auth_context : Value → Option AuthContext
unfolding role_of
to_auth_context payload =
    if not (is_object payload)
    then none
    else elim (subject_of
        (coalesce (property payload (codes "sub")) (property payload (codes "userId")))) [
          | none ↦ none
          | some subject ↦ elim (role_of (property payload (codes "role"))) [
            | none ↦ none
            | some role ↦ some record { user_id = subject; role = role }
          ]
        ]

pub data Authentication : Type 0 where
  -- 401, and the error of a server without a secret
  unauthorized misconfigured : Authentication
  authenticated : AuthContext → Authentication

abbrev pub context_or_401 : Option AuthContext → Authentication
context_or_401 none = unauthorized
context_or_401 (some ctx) = authenticated ctx

-- `secret` is the environment's `JWT_SECRET`, and `verify` is `JwtService.verify`: `none` where it
-- throws.
unfoldable pub authenticate : Option Str → (Str → Str → Option Value) → Request → Authentication
unfolding extract_bearer_token to_auth_context
authenticate secret verify req = elim (extract_bearer_token req) [
  | none ↦ unauthorized
  | some token ↦ elim secret [
    | none ↦ misconfigured
    | some [] ↦ misconfigured
    | some (c ∷ s) ↦ elim (verify token (c ∷ s)) [
      | none ↦ unauthorized
      | some payload ↦ context_or_401 (to_auth_context payload)
    ]
  ]
]

-- The request path up to a query.
unfoldable pub up_to_query : Str → Str
up_to_query [] = []
up_to_query (c ∷ s) = if c == b'?' then [] else c ∷ up_to_query s

unfoldable pub resolve_route_meta : Request → RouteMeta
unfolding up_to_query
resolve_route_meta req = record { method = req.method; path = up_to_query req.path }

pub data Outcome : Type 0 where
  -- 401, the error of a server without a secret, and 403
  refused_401 failed_500 refused_403 : Outcome
  -- 429 with the seconds of `Retry-After`
  refused_429 : ℕ → Outcome
  -- to the upstream
  forwarded : AuthContext → Outcome

module _ (to_upper : Str → Str) (permissions : RoutePermissionMap) (secret : Option Str)
    (verify : Str → Str → Option Value) (redis : RedisCounters) (show : ℕ → Str)
    (config : Role → RateLimitRule) where
  -- The rate limit guard, for the role of a principal.
  unfoldable pub rate_limit_guard : redis.State → ℕ → AuthContext → redis.State × Outcome
  rate_limit_guard s now ctx =
      let consumed = consume redis show config s now ctx.role in
      (
        consumed.0,
        if not consumed.1.allowed then refused_429 consumed.1.retry_after_sec else forwarded ctx,
      )

  -- The RBAC guard, and the rate limit guard after it.
  unfoldable pub rbac_guard : redis.State → ℕ → Request → AuthContext → redis.State × Outcome
  unfolding rate_limit_guard resolve_route_meta
  rbac_guard s now req ctx =
      let granted = service_authorize to_upper ctx.role (resolve_route_meta req) permissions in
      let limited = rate_limit_guard s now ctx in if not granted then (s, refused_403) else limited

  -- `@UseGuards(JwtAuthGuard, RbacGuard, RateLimitGuard)`
  unfoldable pub guards : redis.State → ℕ → Request → redis.State × Outcome
  unfolding authenticate rbac_guard
  guards s now req = elim (authenticate secret verify req) [
    | unauthorized ↦ (s, refused_401)
    | misconfigured ↦ (s, failed_500)
    | authenticated ctx ↦ rbac_guard s now req ctx
  ]
