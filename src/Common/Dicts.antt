-- ===== src/Common/Dicts.antt =====
-- A JavaScript `Map` with string keys: an association list in insertion order.
use mathlib.Core.Path.{◌≡◌, refl, ap, ◌∙◌}
use mathlib.Core.Logic.{◌⊎◌, ◌≢◌, inl, inr}
use mathlib.Core.Bool.{false}
use mathlib.Core.List.{List, [], ◌∷◌}
use mathlib.Core.Option.{Option, none, some}
use native.Mathlib.Omega.{arith}
use pawaacdrone_fleet_operat.Common.Tests.{if◌then◌else◌, Bool-cases}
use pawaacdrone_fleet_operat.Common.Strings.{Str, ◌===◌, ===_iff, ===_refl}

abbrev pub Dict {ℓ} : Type ℓ → Type ℓ
Dict V = List (Str × V)

module _ {ℓ} {V : Type ℓ} where
  -- `map.get(k)`
  unfoldable pub get : Str → Dict V → Option V
  get k [] = none
  get k ((j, v) ∷ m) = if j === k then some v else get k m

  -- `map.set(k, v)`: in place for a present key, at the end for a new one
  unfoldable pub put : Str → V → Dict V → Dict V
  put k v [] = (k, v) ∷ []
  put k v ((j, w) ∷ m) = if j === k then (j, v) ∷ m else (j, w) ∷ put k v m

  -- `map.delete(k)`
  unfoldable pub delete : Str → Dict V → Dict V
  delete k [] = []
  delete k ((j, w) ∷ m) = if j === k then delete k m else (j, w) ∷ delete k m

module _ {ℓ} {V : Type ℓ} where
  pub get-put :
      (k j : Str) (v : V) (m : Dict V) → get j (put k v m) ≡ (if k === j then some v else get j m)
  unfolding get put
  get-put k j v [] = refl
  get-put k j v ((i, w) ∷ m) =
      ground (arith, ===_iff k j, ===_iff i k, ===_iff i j, get-put k j v m)

  pub get-put_self : (k : Str) (v : V) (m : Dict V) → get k (put k v m) ≡ some v
  get-put_self k v m = simp (get-put, ===_refl)

  pub get-delete :
      (k j : Str) (m : Dict V) → get j (delete k m) ≡ (if k === j then none else get j m)
  unfolding get delete
  get-delete k j [] = ground arith
  get-delete k j ((i, w) ∷ m) =
      ground (arith, ===_iff k j, ===_iff i k, ===_iff i j, get-delete k j m)

pub ===_ne : (k j : Str) → k ≢ j → (k === j) ≡ false
===_ne k j n = elim (Bool-cases (k === j)) [ inl e ↦ absurd (n ((===_iff k j).0 e)) | inr e ↦ e ]

pub Str-cases : (k j : Str) → (k ≡ j) ⊎ (k ≢ j)
Str-cases k j = elim (Bool-cases (k === j)) [
  | inl e ↦ inl ((===_iff k j).0 e)
  | inr e ↦ inr (λ q. absurd (ground (arith, (===_iff k j).1 q)))
]

module _ {ℓ} {V : Type ℓ} where
  pub get-put_other : (k j : Str) (v : V) (m : Dict V) → k ≢ j → get j (put k v m) ≡ get j m
  get-put_other k j v m n = get-put k j v m ∙ ap (λ b. if b then some v else get j m) (===_ne k j n)

  pub get-delete_other : (k j : Str) (m : Dict V) → k ≢ j → get j (delete k m) ≡ get j m
  get-delete_other k j m n = get-delete k j m ∙ ap (λ b. if b then none else get j m) (===_ne k j n)

  pub get-delete_self : (k : Str) (m : Dict V) → get k (delete k m) ≡ none
  get-delete_self k m = get-delete k k m ∙ ap (λ b. if b then none else get k m) (===_refl k)
