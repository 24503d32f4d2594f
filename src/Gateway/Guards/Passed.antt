-- ===== src/Gateway/Guards/Passed.antt =====
-- What is known of a request that reaches an upstream.
use pawaacdrone_fleet_operat.Common.{
  ℕ, ◌⊎◌, ◌≡◌, ◌≢◌, true, List, [], Option, some, Str, codes, get,
}
use pawaacdrone_fleet_operat.Alerts.Rules.{Value, text, property}
use pawaacdrone_fleet_operat.Gateway.{Role, role_name}
use pawaacdrone_fleet_operat.Gateway.Permissions.{RouteMeta, RoutePermissionMap, route_key}
use pawaacdrone_fleet_operat.Gateway.Permissions.Authorize.{Granted}
use pawaacdrone_fleet_operat.Gateway.Permissions.Matching.{Covers}
use pawaacdrone_fleet_operat.Gateway.RateLimit.{RedisCounters, RateLimitRule, consume}
use pawaacdrone_fleet_operat.Gateway.Guards.{
  AuthContext, Request, extract_bearer_token, coalesce, subject_of, resolve_route_meta, Outcome,
  refused_401, failed_500, refused_403, refused_429, forwarded, rate_limit_guard,
}

-- The claims of a payload that is accepted.
pub record Claims (payload : Value) (ctx : AuthContext) : Type 0 where
  pub subject :
      subject_of (coalesce (property payload (codes "sub")) (property payload (codes "userId")))
      ≡ some ctx.user_id
  pub role : property payload (codes "role") ≡ text (role_name ctx.role)

-- A token of the request that verifies under the secret and carries the claims of the principal.
pub record Principal (secret : Option Str) (verify : Str → Str → Option Value) (req : Request)
    (ctx : AuthContext) : Type 0 where
  pub token : Str
  pub extracted : extract_bearer_token req ≡ some token
  pub key : Str
  pub known : secret ≡ some key
  pub key_given : key ≢ []
  pub payload : Value
  pub verified : verify token key ≡ some payload
  pub claims : Claims payload ctx

module _ (to_upper : Str → Str) (permissions : RoutePermissionMap) (secret : Option Str)
    (verify : Str → Str → Option Value) (redis : RedisCounters) (show : ℕ → Str)
    (config : Role → RateLimitRule) (s : redis.State) (now : ℕ) (req : Request) where
  -- The table grants the role on an entry for the method and the path of the request.
  pub record Authorised (ctx : AuthContext) : Type 0 where
    pub entry : RouteMeta
    pub roles : List Role
    pub method : entry.method ≡ to_upper req.method
    pub covers : Covers entry.path (resolve_route_meta req).path
    pub listed : get (route_key to_upper entry) permissions ≡ some roles
    pub granted : Granted roles ctx.role

  -- What it takes to be forwarded: all three guards.
  pub record Forwarded (ctx : AuthContext) (s' : redis.State) : Type 0 where
    pub principal : Principal secret verify req ctx
    pub authorised : Authorised ctx
    pub within_quota : (consume redis show config s now ctx.role).1.allowed ≡ true
    pub metered : s' ≡ (consume redis show config s now ctx.role).0

  abbrev limited : AuthContext → redis.State × Outcome
  limited ctx = rate_limit_guard to_upper permissions secret verify redis show config s now ctx

  -- A request is forwarded for a principal, or refused with the quotas touched by a 429 only.
  pub data Guarded (r : redis.State × Outcome) : Type 0 where
    forwards : (ctx : AuthContext) → r.1 ≡ forwarded ctx → Forwarded ctx r.0 → Guarded r
    limits :
        (ctx : AuthContext) (seconds : ℕ)
        → r.1 ≡ refused_429 seconds
        → Principal secret verify req ctx
        → Authorised ctx
        → Guarded r
    refuses : (r.1 ≡ refused_401) ⊎ ((r.1 ≡ failed_500) ⊎ (r.1 ≡ refused_403)) → r.0 ≡ s → Guarded r
