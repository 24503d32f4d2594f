-- ===== src/Fleet/Store/Agreement.antt =====
-- The two maps of the drone store, and the changes that keep them in agreement.
use pawaacdrone_fleet_operat.Common.{
  ◌≤◌, ◌≡◌, ◌≢◌, ◌⊎◌, inl, inr, sym, ap, ◌∙◌, none, some, Str, Dict, get, put, delete, get-put_self,
  get-put_other, get-delete_self, get-delete_other, Str-cases, arith, ===_iff, subst, some_inj,
  none-some,
}
use pawaacdrone_fleet_operat.Fleet.{Drone}
use pawaacdrone_fleet_operat.Fleet.Store.{move_serial}

-- Each drone stands under its identifier, its serial number is indexed and its version is at least
-- 1; and each entry of the index is the serial number of a drone.
pub record Agree (drones : Dict Drone) (serials : Dict Str) : Type 0 where
  pub keyed : (i : Str) (d : Drone) → get i drones ≡ some d → d.id ≡ i
  pub indexed : (i : Str) (d : Drone) → get i drones ≡ some d → get d.serial_number serials ≡ some i
  pub versioned : (i : Str) (d : Drone) → get i drones ≡ some d → 1 ≤ d.version
  pub owned :
      (n i : Str)
      → get n serials ≡ some i
      → (d : Drone) × (get i drones ≡ some d) × (d.serial_number ≡ n)

-- What a lookup after `put` finds.
put_cases {ℓ} :
    {V : Type ℓ} (k j : Str) (v x : V) (m : Dict V)
    → get j (put k v m) ≡ some x
    → ((k ≡ j) × (x ≡ v)) ⊎ ((k ≢ j) × (get j m ≡ some x))
put_cases k j v x m h = elim (Str-cases k j) [
  | inl e ↦ inl (e, some_inj (sym h ∙ ap (λ i. get i (put k v m)) (sym e) ∙ get-put_self k v m))
  | inr n ↦ inr (n, sym (get-put_other k j v m n) ∙ h)
]

move_serial-same :
    (serials : Dict Str) (id old new : Str) → new ≡ old → move_serial serials id old new ≡ serials
move_serial-same serials id old new e = ground (arith, (===_iff new old).1 e)

move_serial-moved :
    (serials : Dict Str) (id old new : Str)
    → new ≢ old
    → move_serial serials id old new ≡ put new id (delete old serials)
move_serial-moved serials id old new n = ground (arith, (===_iff new old).0, n)

module _ (drones : Dict Drone) (serials : Dict Str) (a : Agree drones serials) where
  -- A drone under a fresh identifier and a free serial number.
  pub Agree-create :
      (id : Str) (d : Drone)
      → d.id ≡ id
      → 1 ≤ d.version
      → get id drones ≡ none
      → get d.serial_number serials ≡ none
      → Agree (put id d drones) (put d.serial_number id serials)
  Agree-create id d named first fresh free = record {
    keyed = λ i x h. elim (put_cases id i d x drones h) [
      | inl (e, f) ↦ ap (λ y. y.id) f ∙ named ∙ e
      | inr (n, g) ↦ a.keyed i x g
    ];
    indexed = λ i x h. elim (put_cases id i d x drones h) [
      | inl (e, f) ↦
          ap (λ y. get y.serial_number (put d.serial_number id serials)) f
          ∙ get-put_self d.serial_number id serials
          ∙ ap some e
      | inr (n, g) ↦
          get-put_other d.serial_number x.serial_number id serials
            (λ q. none-some (sym free ∙ ap (λ y. get y serials) q ∙ a.indexed i x g))
          ∙ a.indexed i x g
    ];
    versioned = λ i x h. elim (put_cases id i d x drones h) [
      | inl (e, f) ↦ ground (arith, first, f)
      | inr (n, g) ↦ a.versioned i x g
    ];
    owned = λ n i h. elim (put_cases d.serial_number n id i serials h) [
      | inl (e, f) ↦ (d, ap (λ y. get y (put id d drones)) f ∙ get-put_self id d drones, e)
      | inr (m, g) ↦
          let (x, k, s) = a.owned n i g in
          (
            x,
            get-put_other id i d drones (λ q. none-some (sym fresh ∙ ap (λ y. get y drones) q ∙ k))
                ∙ k,
            s,
          )
    ];
  }

  module _ (id : Str) (c d : Drone) (found : get id drones ≡ some c) (named : d.id ≡ c.id)
      (later : 1 ≤ d.version) where
    -- A new record of a drone under its serial number.
    Agree-same : d.serial_number ≡ c.serial_number → Agree (put id d drones) serials
    Agree-same same = record {
      keyed = λ i x h. elim (put_cases id i d x drones h) [
        | inl (e, f) ↦ ap (λ y. y.id) f ∙ named ∙ a.keyed id c found ∙ e
        | inr (n, g) ↦ a.keyed i x g
      ];
      indexed = λ i x h. elim (put_cases id i d x drones h) [
        | inl (e, f) ↦
            ap (λ y. get y.serial_number serials) f
            ∙ ap (λ y. get y serials) same
            ∙ a.indexed id c found
            ∙ ap some e
        | inr (n, g) ↦ a.indexed i x g
      ];
      versioned = λ i x h. elim (put_cases id i d x drones h) [
        | inl (e, f) ↦ ground (arith, later, f)
        | inr (n, g) ↦ a.versioned i x g
      ];
      owned = λ n i h.
          let (x, k, s) = a.owned n i h in
          elim (Str-cases id i) [
            | inl e ↦ (
              d,
              ap (λ y. get y (put id d drones)) (sym e) ∙ get-put_self id d drones,
              same
                  ∙ ap (λ y. y.serial_number) (some_inj (sym found ∙ ap (λ y. get y drones) e ∙ k))
                  ∙ s,
            )
            | inr q ↦ (x, get-put_other id i d drones q ∙ k, s)
          ];
    }

    owned_before :
        (n i : Str)
        → get n (delete c.serial_number serials) ≡ some i
        → (x : Drone) × (get i (put id d drones) ≡ some x) × (x.serial_number ≡ n)
    owned_before n i g = elim (Str-cases c.serial_number n) [
      | inl e ↦ absurd (
          none-some (
            sym (get-delete_self c.serial_number serials)
            ∙ ap (λ y. get y (delete c.serial_number serials)) e
            ∙ g))
      | inr q ↦
          let (x, k, s) = a.owned n i (sym (get-delete_other c.serial_number n serials q) ∙ g) in
          (
            x,
            get-put_other id i d drones (λ e. q (
                  ap (λ y. y.serial_number) (some_inj (sym found ∙ ap (λ y. get y drones) e ∙ k))
                  ∙ s))
                ∙ k,
            s,
          )
    ]

    -- One under another serial number, which was free.
    Agree-moved :
        d.serial_number ≢ c.serial_number
        → get d.serial_number serials ≡ none
        → Agree (put id d drones) (put d.serial_number id (delete c.serial_number serials))
    Agree-moved moved free = record {
      keyed = λ i x h. elim (put_cases id i d x drones h) [
        | inl (e, f) ↦ ap (λ y. y.id) f ∙ named ∙ a.keyed id c found ∙ e
        | inr (n, g) ↦ a.keyed i x g
      ];
      indexed = λ i x h. elim (put_cases id i d x drones h) [
        | inl (e, f) ↦
            ap (λ y. get y.serial_number (put d.serial_number id (delete c.serial_number serials)))
              f
            ∙ get-put_self d.serial_number id (delete c.serial_number serials)
            ∙ ap some e
        | inr (n, g) ↦
            get-put_other d.serial_number x.serial_number id (delete c.serial_number serials)
              (λ q. none-some (sym free ∙ ap (λ y. get y serials) q ∙ a.indexed i x g))
            ∙ get-delete_other c.serial_number x.serial_number serials (λ q.
              n (
                some_inj
                  (sym (a.indexed id c found) ∙ ap (λ y. get y serials) q ∙ a.indexed i x g)))
            ∙ a.indexed i x g
      ];
      versioned = λ i x h. elim (put_cases id i d x drones h) [
        | inl (e, f) ↦ ground (arith, later, f)
        | inr (n, g) ↦ a.versioned i x g
      ];
      owned = λ n i h. elim (put_cases d.serial_number n id i (delete c.serial_number serials) h) [
        | inl (e, f) ↦ (d, ap (λ y. get y (put id d drones)) f ∙ get-put_self id d drones, e)
        | inr (m, g) ↦ owned_before n i g
      ];
    }

    -- Both, as `update` does them.
    pub Agree-update :
        (d.serial_number ≢ c.serial_number → get d.serial_number serials ≡ none)
        → Agree (put id d drones) (move_serial serials id c.serial_number d.serial_number)
    Agree-update free = elim (Str-cases d.serial_number c.serial_number) [
      | inl e ↦ subst (Agree (put id d drones)) (sym (move_serial-same _ _ _ _ e)) (Agree-same e)
      | inr n ↦
          subst (Agree (put id d drones)) (sym (move_serial-moved _ _ _ _ n))
            (Agree-moved n (free n))
    ]
