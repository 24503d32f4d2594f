-- ===== src/Dispatch/FanOut.antt =====
-- The channels that a dispatch goes to.
use pawaacdrone_fleet_operat.Common.{
  ◌≡◌, ◌≢◌, ◌⊎◌, inl, inr, refl, sym, subst, ◌∙◌, true, false, List, [], ◌∷◌, ◌++◌, Str, ◌===◌,
  ===_iff, get_or, All, Some, map_All, arith, Bool-cases,
}
use pawaacdrone_fleet_operat.Alerts.{Channel, ChannelType, in_app, email, whatsapp}
use pawaacdrone_fleet_operat.Dispatch.{channel_key, type_name, has, fan_out_from, fan_out_channels}

-- The channels go to the same place: same type, same target (a missing one counts as empty).
abbrev pub SameTarget : Channel → Channel → Type 0
SameTarget c d = (c.kind ≡ d.kind) × (get_or c.target [] ≡ get_or d.target [])

cut-inj :
    (k l : ChannelType) (s t : Str)
    → type_name k ++ (0 ∷ s) ≡ type_name l ++ (0 ∷ t)
    → (k ≡ l) × (s ≡ t)
cut-inj in_app in_app s t e = (refl, cc)
cut-inj email email s t e = (refl, cc)
cut-inj whatsapp whatsapp s t e = (refl, cc)
cut-inj in_app email s t e = ground arith
cut-inj in_app whatsapp s t e = ground arith
cut-inj email in_app s t e = ground arith
cut-inj email whatsapp s t e = ground arith
cut-inj whatsapp in_app s t e = ground arith
cut-inj whatsapp email s t e = ground arith

-- Equal keys mean the same target: the separator makes the key unambiguous.
channel_key-SameTarget : (c d : Channel) → channel_key c ≡ channel_key d → SameTarget c d
unfolding channel_key
channel_key-SameTarget c d e = cut-inj c.kind d.kind _ _ e

-- No two entries go to the same place.
abbrev pub NoRepeats : List Channel → Type 0
NoRepeats [] = Unit
NoRepeats (c ∷ cs) = All (λ d. ¬ SameTarget c d) cs × NoRepeats cs

-- The entries of the first list stand in the second, in its order.
pub data Subsequence : List Channel → List Channel → Type 0 where
  done : Subsequence [] []
  drop : {c : Channel} {xs ys : List Channel} → Subsequence xs ys → Subsequence xs (c ∷ ys)
  keep : {c : Channel} {xs ys : List Channel} → Subsequence xs ys → Subsequence (c ∷ xs) (c ∷ ys)

fan_out_from-Subsequence :
    (seen : List Str) (cs : List Channel) → Subsequence (fan_out_from seen cs) cs
unfolding fan_out_from
fan_out_from-Subsequence seen [] = done
fan_out_from-Subsequence seen (c ∷ cs) = elim (Bool-cases (has seen (channel_key c))) [
  | inl old ↦ rw old (drop (fan_out_from-Subsequence seen cs))
  | inr new ↦ rw new (keep (fan_out_from-Subsequence (channel_key c ∷ seen) cs))
]

has-cons_false :
    (k : Str) (seen : List Str) (j : Str)
    → has (k ∷ seen) j ≡ false
    → ((k === j) ≡ false) × (has seen j ≡ false)
unfolding has
has-cons_false k seen j h = ground arith

-- What is kept was not seen.
fan_out_from-new :
    (seen : List Str) (cs : List Channel)
    → All (λ d. has seen (channel_key d) ≡ false) (fan_out_from seen cs)
unfolding fan_out_from
fan_out_from-new seen [] = tt
fan_out_from-new seen (c ∷ cs) = elim (Bool-cases (has seen (channel_key c))) [
  | inl old ↦ rw old (fan_out_from-new seen cs)
  | inr new ↦ rw new (
    new,
    map_All (λ d h. (has-cons_false _ seen _ h).1) _ (fan_out_from-new (channel_key c ∷ seen) cs),
  )
]

has_self : (k : Str) (seen : List Str) (j : Str) → has (k ∷ seen) j ≡ false → k ≢ j
has_self k seen j h e = ne (sym ((has-cons_false k seen j h).0) ∙ (===_iff k j).1 e)
  where
    ne : ¬ (false ≡ true)
    ne p = cc

SameTarget-key : (c d : Channel) → SameTarget c d → channel_key c ≡ channel_key d
unfolding channel_key
SameTarget-key c d (k, t) = rw (k, t) refl

fan_out_from-NoRepeats : (seen : List Str) (cs : List Channel) → NoRepeats (fan_out_from seen cs)
unfolding fan_out_from
fan_out_from-NoRepeats seen [] = tt
fan_out_from-NoRepeats seen (c ∷ cs) = elim (Bool-cases (has seen (channel_key c))) [
  | inl old ↦ rw old (fan_out_from-NoRepeats seen cs)
  | inr new ↦ rw new (
    map_All (λ d h s. has_self _ seen _ h (SameTarget-key c d s)) _
        (fan_out_from-new (channel_key c ∷ seen) cs),
    fan_out_from-NoRepeats (channel_key c ∷ seen) cs,
  )
]

seen_or_same :
    (seen : List Str) (c d : Channel) (xs : List Channel)
    → has (channel_key c ∷ seen) (channel_key d) ≡ true
    → (has seen (channel_key d) ≡ true) ⊎ Some (λ x. SameTarget x d) (c ∷ xs)
unfolding has
seen_or_same seen c d xs h = elim (Bool-cases (channel_key c === channel_key d)) [
  | inl same ↦ inr (inl (channel_key-SameTarget c d ((===_iff _ _).0 same)))
  | inr other ↦ inl (ground arith)
]

nothing_seen : (k : Str) → ¬ (has [] k ≡ true)
unfolding has
nothing_seen k h = cc

fan_out_from-old :
    (seen : List Str) (c : Channel) (cs : List Channel)
    → has seen (channel_key c) ≡ true
    → fan_out_from seen (c ∷ cs) ≡ fan_out_from seen cs
unfolding fan_out_from
fan_out_from-old seen c cs h = rw h refl

fan_out_from-kept :
    (seen : List Str) (c : Channel) (cs : List Channel)
    → has seen (channel_key c) ≡ false
    → fan_out_from seen (c ∷ cs) ≡ c ∷ fan_out_from (channel_key c ∷ seen) cs
unfolding fan_out_from
fan_out_from-kept seen c cs h = rw h refl

-- Every channel's key was seen before, or its target is in the output.
abbrev Covers : List Str → List Channel → List Channel → Type 0
Covers seen out cs =
    All (λ c. (has seen (channel_key c) ≡ true) ⊎ Some (λ d. SameTarget d c) out) cs

fan_out_from-Covers : (seen : List Str) (cs : List Channel) → Covers seen (fan_out_from seen cs) cs
fan_out_from-Covers seen [] = tt
fan_out_from-Covers seen (c ∷ cs) = elim (Bool-cases (has seen (channel_key c))) [
  | inl old ↦
      subst (λ out. Covers seen out (c ∷ cs)) (sym (fan_out_from-old seen c cs old))
        (inl old, fan_out_from-Covers seen cs)
  | inr new ↦
      subst (λ out. Covers seen out (c ∷ cs)) (sym (fan_out_from-kept seen c cs new))
        (inr (inl (refl, refl)), map_All later cs (fan_out_from-Covers (channel_key c ∷ seen) cs))
]
  where
    later :
        (d : Channel)
        → (has (channel_key c ∷ seen) (channel_key d) ≡ true)
          ⊎ Some (λ x. SameTarget x d) (fan_out_from (channel_key c ∷ seen) cs)
        → (has seen (channel_key d) ≡ true)
          ⊎ Some (λ x. SameTarget x d) (c ∷ fan_out_from (channel_key c ∷ seen) cs)
    later d (inr s) = inr (inr s)
    later d (inl h) = seen_or_same seen c d _ h

-- The fan-out goes to exactly the configured targets: its entries are configured ones in the
-- configured order, none goes where another goes, and each configured channel's target is among
-- them.
pub fan_out_channels_exact :
    (cs : List Channel)
    → Subsequence (fan_out_channels cs) cs
      × NoRepeats (fan_out_channels cs)
      × All (λ c. Some (λ d. SameTarget d c) (fan_out_channels cs)) cs
unfolding fan_out_channels
fan_out_channels_exact cs = (
  fan_out_from-Subsequence [] cs,
  fan_out_from-NoRepeats [] cs,
  map_All (λ c. unseen c) cs (fan_out_from-Covers [] cs),
)
  where
    unseen :
        (c : Channel)
        → (has [] (channel_key c) ≡ true) ⊎ Some (λ d. SameTarget d c) (fan_out_from [] cs)
        → Some (λ d. SameTarget d c) (fan_out_from [] cs)
    unseen c (inl h) = absurd (nothing_seen (channel_key c) h)
    unseen c (inr s) = s
