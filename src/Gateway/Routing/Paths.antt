-- ===== src/Gateway/Routing/Paths.antt =====
-- Two prefixes of one path.
use pawaacdrone_fleet_operat.Common.{
  ◌≡◌, ◌⊎◌, inl, inr, refl, true, [], ◌∷◌, Str, ◌===◌, starts_with, arith,
}
use pawaacdrone_fleet_operat.Gateway.Routing.{path_has_prefix}

starts_with_slash : (p : Str) → starts_with p (b'/' ∷ []) ≡ true → (q : Str) × (p ≡ b'/' ∷ q)
unfolding starts_with
starts_with_slash [] h = absurd (ground arith)
starts_with_slash (c ∷ q) h = (q, ground arith)

-- Of two prefixes that own one path, one owns the other.
pub path_has_prefix-comparable :
    (p a b : Str)
    → path_has_prefix p a ≡ true
    → path_has_prefix p b ≡ true
    → (path_has_prefix a b ≡ true) ⊎ (path_has_prefix b a ≡ true)
unfolding path_has_prefix starts_with ◌===◌
path_has_prefix-comparable p [] [] h k = inl refl
path_has_prefix-comparable [] [] (d ∷ b) h k = absurd (ground arith)
path_has_prefix-comparable (c ∷ p) [] (d ∷ b) h k = inr (ground arith)
path_has_prefix-comparable [] (d ∷ a) b h k = absurd (ground arith)
path_has_prefix-comparable (c ∷ p) (d ∷ a) [] h k = inl (ground arith)
path_has_prefix-comparable (c ∷ p) (d ∷ a) (e ∷ b) h k =
    ground (arith, path_has_prefix-comparable p a b)
