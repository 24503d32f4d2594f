-- ===== src/Common/Sorting.antt =====
-- `Array.prototype.sort` by a numeric key: a stable sort, so a stable insertion sort gives the same.
use Prim.Native.Nat.{ℕ, zero, suc}
use mathlib.Core.Path.{◌≡◌, refl, sym, ap, ◌∙◌}
use mathlib.Core.Logic.{◌↔◌, inl, inr}
use mathlib.Core.Bool.{Bool, true, ◌&&◌}
use mathlib.Core.List.{List, [], ◌∷◌, map, foldr, Perm}
use mathlib.Core.List.Perm
use native.Mathlib.Omega.{arith}
use pawaacdrone_fleet_operat.Common.Tests.{leb, ◌==◌, if◌then◌else◌, Bool-cases}
use pawaacdrone_fleet_operat.Common.Lists.{length, All}

module _ {ℓ} {A : Type ℓ} (key : A → ℕ) where
  unfoldable pub insert_by : A → List A → List A
  insert_by x [] = x ∷ []
  insert_by x (y ∷ ys) = if leb (key x) (key y) then x ∷ y ∷ ys else y ∷ insert_by x ys

  unfoldable pub sort_by : List A → List A
  unfolding insert_by
  sort_by [] = []
  sort_by (x ∷ xs) = insert_by x (sort_by xs)

  insert_by_perm : (x : A) (ys : List A) → Perm (insert_by x ys) (x ∷ ys)
  unfolding insert_by
  insert_by_perm x [] = Perm.rfl
  insert_by_perm x (y ∷ ys) = elim (Bool-cases (leb (key x) (key y))) [
    | inl e ↦ rw e Perm.rfl
    | inr e ↦ rw e (Perm.trans (Perm.cons y (insert_by_perm x ys)) (Perm.swap x y ys))
  ]

  pub sort_by_perm : (xs : List A) → Perm (sort_by xs) xs
  unfolding sort_by
  sort_by_perm [] = Perm.rfl
  sort_by_perm (x ∷ xs) = Perm.trans (insert_by_perm x (sort_by xs)) (Perm.cons x (sort_by_perm xs))

abbrev pub sort : List ℕ → List ℕ
sort = sort_by (λ (n : ℕ). n)

abbrev pub insert : ℕ → List ℕ → List ℕ
insert = insert_by (λ (n : ℕ). n)

insert-insert : (a b : ℕ) (l : List ℕ) → insert a (insert b l) ≡ insert b (insert a l)
unfolding insert_by
insert-insert a b [] = ground arith
insert-insert a b (c ∷ l) = ground (arith, insert-insert a b l)

sort-foldr : (xs : List ℕ) → sort xs ≡ foldr insert [] xs
unfolding sort_by
sort-foldr [] = refl
sort-foldr (x ∷ xs) = ap (insert x) (sort-foldr xs)

pub sort_eq : {xs ys : List ℕ} → Perm xs ys → sort xs ≡ sort ys
sort_eq {xs} {ys} p =
    sort-foldr xs ∙ Perm.foldr-eq (hlevel) insert insert-insert p [] ∙ sym (sort-foldr ys)

-- The numbers from `k` on, `n` of them.
abbrev pub range : ℕ → ℕ → List ℕ
range k zero = []
range k (suc n) = k ∷ range (suc k) n

pub length-range : (k n : ℕ) → length (range k n) ≡ n
length-range k zero = refl
length-range k (suc n) = ap suc (length-range (suc k) n)

insert-range : (k n : ℕ) → insert k (range (suc k) n) ≡ k ∷ range (suc k) n
unfolding insert_by
insert-range k zero = refl
insert-range k (suc n) = ground arith

pub sort-range : (k n : ℕ) → sort (range k n) ≡ range k n
unfolding sort_by
sort-range k zero = refl
sort-range k (suc n) = ap (insert k) (sort-range (suc k) n) ∙ insert-range k n

-- `list.every((seq, index) => seq === index)`, from index `k`
unfoldable pub counts_from : ℕ → List ℕ → Bool
counts_from k [] = true
counts_from k (s ∷ seqs) = s == k && counts_from (suc k) seqs

pub counts_from_iff :
    (k : ℕ) (seqs : List ℕ) → (counts_from k seqs ≡ true) ↔ (seqs ≡ range k (length seqs))
unfolding counts_from
counts_from_iff k [] = (λ h. refl, λ h. refl)
counts_from_iff k (s ∷ seqs) = ground (arith, counts_from_iff (suc k) seqs)

module _ {ℓ} {A : Type ℓ} (key : A → ℕ) where
  map-insert_by : (x : A) (ys : List A) → map key (insert_by key x ys) ≡ insert (key x) (map key ys)
  unfolding insert_by
  map-insert_by x [] = refl
  map-insert_by x (y ∷ ys) = ground (arith, map-insert_by x ys)

  -- Sorting by a key sorts the keys.
  pub map-sort_by : (xs : List A) → map key (sort_by key xs) ≡ sort (map key xs)
  unfolding sort_by
  map-sort_by [] = refl
  map-sort_by (x ∷ xs) = map-insert_by x (sort_by key xs) ∙ ap (insert (key x)) (map-sort_by xs)

  insert_by-length : (x : A) (ys : List A) → length (insert_by key x ys) ≡ suc (length ys)
  unfolding insert_by
  insert_by-length x [] = refl
  insert_by-length x (y ∷ ys) = ground (arith, insert_by-length x ys)

  pub sort_by-length : (xs : List A) → length (sort_by key xs) ≡ length xs
  unfolding sort_by
  sort_by-length [] = refl
  sort_by-length (x ∷ xs) = insert_by-length x (sort_by key xs) ∙ ap suc (sort_by-length xs)

  insert_by-All {κ} :
      (P : A → Type κ) (x : A) (ys : List A) → P x → All P ys → All P (insert_by key x ys)
  unfolding insert_by
  insert_by-All P x [] p ps = (p, tt)
  insert_by-All P x (y ∷ ys) p (q, ps) = elim (Bool-cases (leb (key x) (key y))) [
    | inl e ↦ rw e (p, (q, ps))
    | inr e ↦ rw e (q, insert_by-All P x ys p ps)
  ]

  pub sort_by-All {κ} : (P : A → Type κ) (xs : List A) → All P xs → All P (sort_by key xs)
  unfolding sort_by
  sort_by-All P [] ps = ps
  sort_by-All P (x ∷ xs) (p, ps) = insert_by-All P x (sort_by key xs) p (sort_by-All P xs ps)
