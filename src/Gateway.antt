-- ===== src/Gateway.antt =====
-- The API gateway, services/api-gateway/src: roles and route permissions (auth), quotas
-- (rate-limit) and the choice of an upstream (routing).
pub mod Permissions
pub mod RateLimit
pub mod Routing
pub mod Guards
use pawaacdrone_fleet_operat.Common.{ℕ, Str, codes, Bool, true, false, List, [], ◌∷◌}

pub data Role : Type 0 where
  viewer analyst operator super_admin : Role

-- auth/roles.ts
unfoldable pub role_privilege : Role → ℕ
role_privilege viewer = 0
role_privilege analyst = 1
role_privilege operator = 2
role_privilege super_admin = 3

abbrev pub role_name : Role → Str
role_name viewer = codes "viewer"
role_name analyst = codes "analyst"
role_name operator = codes "operator"
role_name super_admin = codes "super_admin"

unfoldable pub role_eq : Role → Role → Bool
role_eq viewer viewer = true
role_eq analyst analyst = true
role_eq operator operator = true
role_eq super_admin super_admin = true
role_eq _ _ = false

abbrev pub super_admin_role : Role
super_admin_role = super_admin
