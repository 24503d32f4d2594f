-- ===== src/Fleet/Store/Locking.antt =====
-- Versions only grow, so an update with a version that was used before is refused.
use pawaacdrone_fleet_operat.Common.{
  ℕ, ◌+◌, ◌<◌, ◌≡◌, ◌≢◌, ◌⊎◌, inl, inr, refl, sym, ap, ◌∙◌, some, Str, get, put, get-put_self,
  get-put_other, Str-cases, arith,
}
use pawaacdrone_fleet_operat.Fleet.{Drone, DroneChanges}
use pawaacdrone_fleet_operat.Fleet.Store.{
  DroneStore, ok, err, optimistic_lock, update, update_option, save_lifecycle, updated_drone,
}
use pawaacdrone_fleet_operat.Common.{some_inj, none-some}
use pawaacdrone_fleet_operat.Fleet.Store.Consistency.{
  Step, created, updated, lifecycle_saved, Reach, start, after, create-ok, update-ok,
}

-- A drone is never lost, and is as it was or has a later version.
abbrev pub Kept : DroneStore → Str → Drone → Type 0
Kept t i d = (e : Drone) × (get i t.drones ≡ some e) × ((e ≡ d) ⊎ (d.version < e.version))

pub Step-Kept :
    {s t : DroneStore} (i : Str) (d : Drone) → Step s t → get i s.drones ≡ some d → Kept t i d
unfolding save_lifecycle
Step-Kept {s} {t} i d (created id now input n fresh h) g =
    let (free, e, drones, serials) = create-ok s t id now input n h in
    (
      d,
      ap (λ m. get i m) drones
          ∙ get-put_other id i _ s.drones
              (λ q. none-some (sym fresh ∙ ap (λ y. get y s.drones) q ∙ g))
          ∙ g,
      inl refl,
    )
Step-Kept {s} {t} i d (updated id expected changes now n h) g =
    let (c, found, stale, taken, e, drones, serials) = update-ok s t id expected changes now n h in
    elim (Str-cases id i) [
      | inl q ↦ (
        updated_drone c changes now,
        ap (λ m. get i m) drones
            ∙ ap (λ y. get y (put id (updated_drone c changes now) s.drones)) (sym q)
            ∙ get-put_self id _ s.drones,
        inr (
            ground
              (arith, ap (λ x. x.version) (some_inj (sym found ∙ ap (λ y. get y s.drones) q ∙ g)))),
      )
      | inr q ↦ (d, ap (λ m. get i m) drones ∙ get-put_other id i _ s.drones q ∙ g, inl refl)
    ]
Step-Kept i d (lifecycle_saved l) g = (d, g, inl refl)

-- Whatever is done to the store, a drone is never lost, and is as it was or has a later version.
pub Reach-Kept :
    {s t : DroneStore} (i : Str) (d : Drone) → Reach s t → get i s.drones ≡ some d → Kept t i d
Reach-Kept i d start g = (d, g, inl refl)
Reach-Kept i d (after r h) g =
    let (e, k, p) = Reach-Kept i d r g in let (f, l, q) = Step-Kept i e h k in (f, l, grind arith)

stale_refused :
    (s : DroneStore) (id : Str) (c : Drone) (version : ℕ) (changes : DroneChanges) (now : Str)
    → get id s.drones ≡ some c
    → version ≢ c.version
    → update s id (some version) changes now ≡ err (optimistic_lock id)
unfolding update
stale_refused s id c version changes now g n =
    ap (λ o. update_option s id o (some version) changes now) g ∙ ground (arith, n)

passed :
    (version current : ℕ) (d e : Drone)
    → (e ≡ d) ⊎ (d.version < e.version)
    → d.version ≡ current + 1
    → version ≡ current
    → version ≢ e.version
passed version current d e (inl same) a b q =
    absurd (omega (arith, ap (λ x. x.version) same, a, b, q))
passed version current d e (inr later) a b q = absurd (omega (arith, later, a, b, q))

-- After a successful update that gave a version, and whatever else happens to the store then, an
-- update of the same drone that gives the same version is refused.
pub update-stale :
    (s t u : DroneStore) (id : Str) (version : ℕ) (first second : DroneChanges) (now later : Str)
    (d : Drone)
    → update s id (some version) first now ≡ ok (t, d)
    → Reach t u
    → update u id (some version) second later ≡ err (optimistic_lock id)
update-stale s t u id version first second now later d h r =
    let (c, found, fresh, taken, e, drones, serials) =
      update-ok s t id (some version) first now d h in
    let written : get id t.drones ≡ some (updated_drone c first now) =
      ap (λ m. get id m) drones ∙ get-put_self id _ s.drones in
    let (x, k, p) = Reach-Kept id (updated_drone c first now) r written in
    let same : version ≡ c.version = ground arith in
    stale_refused u id x version second later k (passed version c.version _ x p refl same)
