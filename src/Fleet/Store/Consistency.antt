-- ===== src/Fleet/Store/Consistency.antt =====
-- The two maps of the drone store agree, whatever is done to it.
use pawaacdrone_fleet_operat.Common.{
  some_inj, none-some, ℕ, ◌≡◌, ◌≢◌, inl, inr, refl, sym, ap, ◌∙◌, subst₂, Bool, true, false, Option,
  none, some, Str, ===_iff, if◌then◌else◌, get, put, get_or, arith, Option-cases,
}
use pawaacdrone_fleet_operat.Fleet.{Drone, NewDrone, DroneChanges, ComponentLifecycle}
use pawaacdrone_fleet_operat.Fleet.Store.Agreement.{Agree, Agree-create, Agree-update}
use pawaacdrone_fleet_operat.Fleet.Store.{
  DroneStore, StoreError, StoreResult, ok, err, empty_store, is_some, create, update, update_option,
  save_lifecycle, find_by_id, new_drone, is_stale, serial_taken, updated_drone, move_serial,
}

-- What an operation that succeeds does to the store. The identifier of a new drone is fresh.
abbrev or_else {ℓ} : {A : Type ℓ} → StoreResult A → A → A
or_else (ok x) y = x
or_else (err e) y = y

pub data Step : DroneStore → DroneStore → Type 0 where
  created :
      {s t : DroneStore} (id now : Str) (input : NewDrone) (d : Drone)
      → get id s.drones ≡ none
      → create s id now input ≡ ok (t, d)
      → Step s t
  updated :
      {s t : DroneStore} (id : Str) (expected : Option ℕ) (changes : DroneChanges) (now : Str)
      (d : Drone)
      → update s id expected changes now ≡ ok (t, d)
      → Step s t
  lifecycle_saved : {s : DroneStore} (l : ComponentLifecycle) → Step s (save_lifecycle s l)

pub data Reach : DroneStore → DroneStore → Type 0 where
  start : {s : DroneStore} → Reach s s
  after : {s t u : DroneStore} → Reach s t → Step t u → Reach s u

ok_inj {ℓ} : {A : Type ℓ} {x y : A} → ok x ≡ ok y → x ≡ y
ok_inj {x = x} e = ap (λ r. or_else r x) e

ok_if {ℓ} :
    {A : Type ℓ} (b : Bool) (e : StoreError) (x y : A)
    → (if b then err e else ok x) ≡ ok y
    → (b ≡ false) × (x ≡ y)
ok_if true e x y h = absurd (ground arith)
ok_if false e x y h = (refl, ok_inj h)

ok_nested {ℓ} :
    {A : Type ℓ} (b c : Bool) (e f : StoreError) (x y : A)
    → (if b then err e else if c then err f else ok x) ≡ ok y
    → ((b ≡ false) × (c ≡ false)) × (x ≡ y)
ok_nested true c e f x y h = absurd (ground arith)
ok_nested false c e f x y h = let (k, r) = ok_if c f x y h in ((refl, k), r)

err_ok {ℓ} : {A : Type ℓ} {e : StoreError} {x : A} → err e ≡ ok x → ⊥
err_ok h = ground arith

is_some-none {ℓ} : {A : Type ℓ} (o : Option A) → is_some o ≡ false → o ≡ none
is_some-none none h = refl
is_some-none (some a) h = absurd (ground arith)

-- A success of `create` or `update`, spelled out.
pub create-ok :
    (s t : DroneStore) (id now : Str) (input : NewDrone) (d : Drone)
    → create s id now input ≡ ok (t, d)
    → (get input.serial_number s.serials ≡ none)
      × (d ≡ new_drone id now input)
      × (t.drones ≡ put id (new_drone id now input) s.drones)
      × (t.serials ≡ put input.serial_number id s.serials)
unfolding create
create-ok s t id now input d h =
    let (b, e) = ok_if (is_some (get input.serial_number s.serials)) _ _ _ h in
    (
      is_some-none _ b,
      sym (ap (λ p. p.1) e),
      sym (ap (λ p. p.0.drones) e),
      sym (ap (λ p. p.0.serials) e),
    )

pub update-ok :
    (s t : DroneStore) (id : Str) (expected : Option ℕ) (changes : DroneChanges) (now : Str)
    (d : Drone)
    → update s id expected changes now ≡ ok (t, d)
    → (c : Drone) × (get id s.drones ≡ some c)
      × (is_stale expected c ≡ false)
      × (serial_taken s c changes.serial_number ≡ false)
      × (d ≡ updated_drone c changes now)
      × (t.drones ≡ put id (updated_drone c changes now) s.drones)
      × (t.serials
          ≡ move_serial s.serials id c.serial_number (get_or changes.serial_number c.serial_number))
unfolding update
update-ok s t id expected changes now d h = elim (Option-cases (get id s.drones)) [
  | inl e ↦ absurd (err_ok (sym (ap (λ o. update_option s id o expected changes now) e) ∙ h))
  | inr (c, e) ↦
      let k = sym (ap (λ o. update_option s id o expected changes now) e) ∙ h in
      let (b, r) =
        ok_nested (is_stale expected c) (serial_taken s c changes.serial_number) _ _ _ _ k in
      (
        c,
        e,
        b.0,
        b.1,
        sym (ap (λ p. p.1) r),
        sym (ap (λ p. p.0.drones) r),
        sym (ap (λ p. p.0.serials) r),
      )
]

serial_taken-free :
    (s : DroneStore) (c : Drone) (o : Option Str)
    → serial_taken s c o ≡ false
    → get_or o c.serial_number ≢ c.serial_number
    → get (get_or o c.serial_number) s.serials ≡ none
serial_taken-free s c none h n = absurd (n refl)
serial_taken-free s c (some m) h n =
    is_some-none (get m s.serials) (ground (arith, ===_iff m c.serial_number, n))

abbrev pub IsConsistent : DroneStore → Type 0
IsConsistent s = Agree s.drones s.serials

pub Step-IsConsistent : {s t : DroneStore} → Step s t → IsConsistent s → IsConsistent t
unfolding save_lifecycle
Step-IsConsistent {s} {t} (created id now input d fresh h) a =
    let (free, e, drones, serials) = create-ok s t id now input d h in
    subst₂ Agree (sym drones) (sym serials)
      (Agree-create s.drones s.serials a id (new_drone id now input) refl (omega arith) fresh free)
Step-IsConsistent {s} {t} (updated id expected changes now d h) a =
    let (c, found, stale, taken, e, drones, serials) = update-ok s t id expected changes now d h in
    subst₂ Agree (sym drones) (sym serials) (
      Agree-update s.drones s.serials a id c (updated_drone c changes now) found refl (omega arith)
        (serial_taken-free s c changes.serial_number taken))
Step-IsConsistent (lifecycle_saved l) a = a

empty_IsConsistent : IsConsistent empty_store
unfolding get
empty_IsConsistent = record {
  keyed = λ i d h. absurd (none-some h);
  indexed = λ i d h. absurd (none-some h);
  versioned = λ i d h. absurd (none-some h);
  owned = λ n i h. absurd (none-some h);
}

keeps : {s t : DroneStore} → Reach s t → IsConsistent s → IsConsistent t
keeps start a = a
keeps (after r h) a = Step-IsConsistent h (keeps r a)

-- Whatever is created, updated and saved, from the empty store on: a drone stands under its
-- identifier with a version of at least 1, its serial number is indexed, and the index has no other
-- entries.
pub Reach-IsConsistent : (s : DroneStore) → Reach empty_store s → IsConsistent s
Reach-IsConsistent s r = keeps r empty_IsConsistent

-- Two drones of a reachable store do not share a serial number.
pub serials_unique :
    (s : DroneStore) (i j : Str) (d e : Drone)
    → Reach empty_store s
    → find_by_id s i ≡ some d
    → find_by_id s j ≡ some e
    → d.serial_number ≡ e.serial_number
    → (i ≡ j) × (d ≡ e)
unfolding find_by_id
serials_unique s i j d e r h k q =
    let a = Reach-IsConsistent s r in
    let same : i ≡ j =
      some_inj (sym (a.indexed i d h) ∙ ap (λ n. get n s.serials) q ∙ a.indexed j e k) in
    (same, some_inj (sym h ∙ ap (λ x. get x s.drones) same ∙ k))
