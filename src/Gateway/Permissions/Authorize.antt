-- ===== src/Gateway/Permissions/Authorize.antt =====
-- Who is allowed on a route.
use pawaacdrone_fleet_operat.Common.{
  ◌≡◌, ◌↔◌, ◌⊎◌, inl, inr, refl, sym, subst, ◌∙◌, Str, true, false, List, [], ◌∷◌, none, some, get,
  arith, Bool-cases, Option-cases, is_empty,
}
use mathlib.Core.Option.{some-injective}
use pawaacdrone_fleet_operat.Gateway.{
  Role, viewer, analyst, operator, super_admin, role_privilege, role_eq,
}
use pawaacdrone_fleet_operat.Gateway.Permissions.{
  RouteMeta, RoutePermissionMap, has_role, permits, some_lower, route_key, authorize,
}

-- The role is listed; the super admin inherits every route that lists anyone.
abbrev pub Granted : List Role → Role → Type 0
Granted roles role =
    (has_role roles role ≡ true) ⊎ ((role ≡ super_admin) × (is_empty roles ≡ false))

role_eq_iff : (r s : Role) → (role_eq r s ≡ true) ↔ (r ≡ s)
unfolding role_eq
role_eq_iff r s = (λ h. ground arith, λ h. ground arith)

-- Who is not the super admin is below it.
lower_or_admin :
    (r : Role) (rs : List Role)
    → (has_role (r ∷ rs) super_admin ≡ true) ⊎ (some_lower (r ∷ rs) 3 ≡ true)
unfolding has_role some_lower
lower_or_admin viewer rs = inr refl
lower_or_admin analyst rs = inr refl
lower_or_admin operator rs = inr refl
lower_or_admin super_admin rs = inl refl

true-ne-false : ¬ (true ≡ false)
true-ne-false e = cc

none-ne-some : {rs : List Role} → ¬ (none ≡ some rs)
none-ne-some e = cc

permits_listed :
    (r : Role) (rs : List Role) (role : Role)
    → has_role (r ∷ rs) role ≡ true
    → permits (r ∷ rs) role ≡ true
unfolding permits
permits_listed r rs role h = rw h refl

permits_lower :
    (r : Role) (rs : List Role)
    → has_role (r ∷ rs) super_admin ≡ false
    → some_lower (r ∷ rs) (role_privilege super_admin) ≡ true
    → permits (r ∷ rs) super_admin ≡ true
unfolding permits
permits_lower r rs n l = rw (n, l) refl

Granted-nonempty : (rs : List Role) (role : Role) → Granted rs role → is_empty rs ≡ false
Granted-nonempty [] role (inl h) = unfold has_role in cc
Granted-nonempty [] role (inr (_, e)) = e
Granted-nonempty (r ∷ rs) role g = refl

admin_lower :
    (r : Role) (rs : List Role)
    → has_role (r ∷ rs) super_admin ≡ false
    → some_lower (r ∷ rs) (role_privilege super_admin) ≡ true
unfolding role_privilege
admin_lower r rs n = elim (lower_or_admin r rs) [
  | inl h ↦ absurd (true-ne-false (sym h ∙ n))
  | inr l ↦ l
]

permits_admin : (r : Role) (rs : List Role) → permits (r ∷ rs) super_admin ≡ true
permits_admin r rs = elim (Bool-cases (has_role (r ∷ rs) super_admin)) [
  | inl h ↦ permits_listed r rs super_admin h
  | inr n ↦ permits_lower r rs n (admin_lower r rs n)
]

permits-Granted : (rs : List Role) (role : Role) → (permits rs role ≡ true) ↔ Granted rs role
permits-Granted [] role = (λ h. unfold permits in cc, λ h. unfold has_role in ground arith)
permits-Granted (r ∷ rs) role = (
  λ h. unfold permits in ground (arith, role_eq_iff role super_admin),
  λ g. elim g [ inl h ↦ permits_listed r rs role h | inr (e, _) ↦ rw e (permits_admin r rs) ],
)

module _ (to_upper : Str → Str) where
  -- Default deny: a role is allowed exactly where the route has an entry that grants it.
  pub authorize_iff :
      (role : Role) (route : RouteMeta) (permissions : RoutePermissionMap)
      → (authorize to_upper role route permissions ≡ true) ↔ (
          (roles : List Role) × (get (route_key to_upper route) permissions ≡ some roles)
          × Granted roles role)
  unfolding authorize
  authorize_iff role route permissions =
      elim (Option-cases (get (route_key to_upper route) permissions)) [
        | inl none_known ↦
            rw (none_known, authorize) (λ h. cc, λ (roles, e, g). absurd (none-ne-some e))
        | inr (found, e) ↦
            rw (e, authorize)
              (
                λ h. (found, refl, (permits-Granted found role).0 h),
                λ (roles, f, g).
                    (permits-Granted found role).1
                      (subst (λ x. Granted x role) (sym (some-injective _ _ f)) g),
              )
      ]

  -- The super admin may do whatever any role may.
  pub authorize-monotone :
      (role : Role) (route : RouteMeta) (permissions : RoutePermissionMap)
      → authorize to_upper role route permissions ≡ true
      → authorize to_upper super_admin route permissions ≡ true
  authorize-monotone role route permissions h =
      let (roles, e, g) = (authorize_iff role route permissions).0 h in
      (authorize_iff super_admin route permissions).1
        (roles, e, inr (refl, Granted-nonempty roles role g))
