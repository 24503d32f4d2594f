-- ===== src/Common/Strings.antt =====
-- A JavaScript string is a list of UTF-16 code units.
use Prim.Native.Nat.{ℕ}
use Prim.Native.Char.{code}
use Prim.Native.String.{String}
use mathlib.Core.Path.{◌≡◌, refl}
use mathlib.Core.Logic.{◌↔◌}
use mathlib.Core.Bool.{Bool, true, false, ◌&&◌, ◌||◌}
use mathlib.Core.List.{List, [], ◌∷◌}
use native.Mathlib.Omega.{arith}
use pawaacdrone_fleet_operat.Common.Tests.{◌==◌, if◌then◌else◌}

abbrev pub Str : Type 0
Str = List ℕ

-- The code units of an ASCII literal.
abbrev pub codes : String → Str
codes String.[] = []
codes (String.◌∷◌ c s) = code c ∷ codes s

-- `===` on strings
infix 50 ◌===◌
unfoldable pub ◌===◌ : Str → Str → Bool
[] === [] = true
[] === (c ∷ t) = false
(c ∷ s) === [] = false
(c ∷ s) === (d ∷ t) = c == d && s === t

===_sound : (s t : Str) → (s === t) ≡ true → s ≡ t
unfolding ◌===◌
===_sound [] [] h = refl
===_sound [] (c ∷ t) h = cc
===_sound (c ∷ s) [] h = cc
===_sound (c ∷ s) (d ∷ t) h = ground (arith, ===_sound s t)

pub ===_refl : (s : Str) → (s === s) ≡ true
unfolding ◌===◌
===_refl [] = refl
===_refl (c ∷ s) = ground (arith, ===_refl s)

pub ===_iff : (s t : Str) → ((s === t) ≡ true) ↔ (s ≡ t)
===_iff s t = (===_sound s t, λ e. ground (arith, ===_refl s))

-- `s.startsWith(p)`
unfoldable pub starts_with : Str → Str → Bool
starts_with s [] = true
starts_with [] (d ∷ p) = false
starts_with (c ∷ s) (d ∷ p) = c == d && starts_with s p

-- `s.includes(p)`
unfoldable pub includes_text : Str → Str → Bool
unfolding starts_with
includes_text [] p = starts_with [] p
includes_text (c ∷ s) p = starts_with (c ∷ s) p || includes_text s p

-- the pieces of `s.split(sep)` for a separator of one code unit; the first is never missing
unfoldable pub split_head : ℕ → Str → Str
split_head sep [] = []
split_head sep (c ∷ s) = if c == sep then [] else c ∷ split_head sep s

unfoldable pub split_rest : ℕ → Str → List Str
unfolding split_head
split_rest sep [] = []
split_rest sep (c ∷ s) = if c == sep then split_head sep s ∷ split_rest sep s else split_rest sep s

unfoldable pub split_on : ℕ → Str → List Str
unfolding split_head split_rest
split_on sep s = split_head sep s ∷ split_rest sep s

split_test : split_on b'.' (codes "a.bc..") ≡ codes "a" ∷ codes "bc" ∷ [] ∷ [] ∷ []
unfolding split_on
split_test = refl
