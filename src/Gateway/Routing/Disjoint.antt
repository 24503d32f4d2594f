-- ===== src/Gateway/Routing/Disjoint.antt =====
-- A table that passes the check at start-up gives every path at most one owner.
use pawaacdrone_fleet_operat.Common.{
  ℕ, zero, suc, ◌+◌, ◌≡◌, ◌≢◌, ◌↔◌, ◌⊎◌, inl, inr, refl, sym, ap, ◌∙◌, true, false, List, [], ◌∷◌,
  some, Str, ◌==◌, get_elem?, arith, Bool-cases, subst,
}
use pawaacdrone_fleet_operat.Gateway.Routing.{
  UpstreamId, UpstreamDefinition, path_has_prefix, find_owner, resolve_upstream_id, normalize_path,
  overlaps, overlaps_from, any_overlap, assert_disjoint_prefixes,
}
use pawaacdrone_fleet_operat.Gateway.Routing.Paths.{path_has_prefix-comparable}

-- The definition at an index of the table owns the path.
abbrev pub OwnsAt : Str → List UpstreamDefinition → ℕ → UpstreamDefinition → Type 0
OwnsAt path definitions i d =
    (get_elem? definitions i ≡ some d) × (path_has_prefix path d.prefix ≡ true)

overlaps_from-at :
    (i : ℕ) (a : UpstreamDefinition) (j k : ℕ) (bs : List UpstreamDefinition)
    (b : UpstreamDefinition)
    → overlaps_from i a j bs ≡ false
    → get_elem? bs k ≡ some b
    → i ≢ j + k
    → overlaps a b ≡ false
unfolding overlaps_from
overlaps_from-at i a j k [] b h e n = absurd (ground arith)
overlaps_from-at i a j zero (c ∷ bs) b h e n = grind arith
overlaps_from-at i a j (suc k) (c ∷ bs) b h e n =
    overlaps_from-at i a (j + 1) k bs b (ground arith) e (λ q. n (omega (arith, q)))

any_overlap-at :
    (all : List UpstreamDefinition) (i k : ℕ) (xs : List UpstreamDefinition)
    (a : UpstreamDefinition)
    → any_overlap all i xs ≡ false
    → get_elem? xs k ≡ some a
    → overlaps_from (i + k) a 0 all ≡ false
unfolding any_overlap
any_overlap-at all i k [] a h e = absurd (ground arith)
any_overlap-at all i zero (c ∷ xs) a h e = grind arith
any_overlap-at all i (suc k) (c ∷ xs) a h e =
    subst (λ n. overlaps_from n a 0 all ≡ false) (omega arith)
      (any_overlap-at all (i + 1) k xs a (ground arith) e)

disjoint_at :
    (definitions : List UpstreamDefinition) (i j : ℕ) (a b : UpstreamDefinition)
    → assert_disjoint_prefixes definitions ≡ true
    → get_elem? definitions i ≡ some a
    → get_elem? definitions j ≡ some b
    → i ≢ j
    → path_has_prefix a.prefix b.prefix ≡ false
unfolding assert_disjoint_prefixes overlaps
disjoint_at definitions i j a b h e f n =
    let o : overlaps a b ≡ false =
      overlaps_from-at i a 0 j definitions b
        (subst (λ k. overlaps_from k a 0 definitions ≡ false) (omega arith)
          (any_overlap-at definitions 0 i definitions a (ground arith) e))
        f (λ q. n (omega (arith, q))) in
    ground arith

compare_index : (i j : ℕ) → (i ≡ j) ⊎ (i ≢ j)
compare_index i j = elim (Bool-cases (i == j)) [
  | inl e ↦ inl (ground arith)
  | inr e ↦ inr (λ q. ground arith)
]

OwnsAt-unique :
    (path : Str) (definitions : List UpstreamDefinition) (i j : ℕ) (a b : UpstreamDefinition)
    → assert_disjoint_prefixes definitions ≡ true
    → OwnsAt path definitions i a
    → OwnsAt path definitions j b
    → a ≡ b
OwnsAt-unique path definitions i j a b h (e, p) (f, q) = elim (compare_index i j) [
  | inl same ↦ grind arith
  | inr n ↦ elim (path_has_prefix-comparable path a.prefix b.prefix p q) [
    | inl r ↦ absurd (ground (arith, disjoint_at definitions i j a b h e f n))
    | inr r ↦ absurd (ground (arith, disjoint_at definitions j i b a h f e (λ s. n (sym s))))
  ]
]

find_owner_sound :
    (path : Str) (definitions : List UpstreamDefinition) (u : UpstreamId)
    → find_owner path definitions ≡ some u
    → (i : ℕ) × (d : UpstreamDefinition) × OwnsAt path definitions i d × (d.id ≡ u)
unfolding find_owner
find_owner_sound path [] u h = absurd (ground arith)
find_owner_sound path (d ∷ definitions) u h = elim (Bool-cases (path_has_prefix path d.prefix)) [
  | inl p ↦ (0, d, (refl, p), ground arith)
  | inr p ↦
      let (i, e, o, q) = find_owner_sound path definitions u (ground arith) in (suc i, e, o, q)
]

find_owner_complete :
    (path : Str) (definitions : List UpstreamDefinition) (i : ℕ) (d : UpstreamDefinition)
    → OwnsAt path definitions i d
    → (u : UpstreamId) × (find_owner path definitions ≡ some u)
unfolding find_owner
find_owner_complete path [] i d (e, p) = absurd (ground arith)
find_owner_complete path (c ∷ definitions) zero d (e, p) =
    elim (Bool-cases (path_has_prefix path c.prefix)) [
      | inl q ↦ (c.id, ground arith)
      | inr q ↦ absurd (grind arith)
    ]
find_owner_complete path (c ∷ definitions) (suc i) d (e, p) =
    let (u, r) = find_owner_complete path definitions i d (e, p) in
    elim (Bool-cases (path_has_prefix path c.prefix)) [
      | inl q ↦ (c.id, ground arith)
      | inr q ↦ (u, ground arith)
    ]

-- When the table passes the check, a path is resolved to an upstream exactly if a definition of
-- that upstream owns the normalised path, wherever in the table it stands; so the order of the
-- table does not matter, and a path that nobody owns is resolved to none.
pub resolve_upstream_id_iff :
    (definitions : List UpstreamDefinition) (raw_path : Str) (u : UpstreamId)
    → assert_disjoint_prefixes definitions ≡ true
    → (resolve_upstream_id raw_path definitions ≡ some u) ↔ (
        (i : ℕ) × (d : UpstreamDefinition) × OwnsAt (normalize_path raw_path) definitions i d
        × (d.id ≡ u))
unfolding resolve_upstream_id
resolve_upstream_id_iff definitions raw_path u h = (
  find_owner_sound (normalize_path raw_path) definitions u,
  λ w.
      let (i, d, o, q) = w in
      let (v, r) = find_owner_complete (normalize_path raw_path) definitions i d o in
      let (j, e, k, s) = find_owner_sound (normalize_path raw_path) definitions v r in
      r
      ∙ ap some (
          sym s
          ∙ ap (λ x. x.id) (OwnsAt-unique (normalize_path raw_path) definitions j i e d h k o)
          ∙ q),
)
