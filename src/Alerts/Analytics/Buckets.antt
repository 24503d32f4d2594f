-- ===== src/Alerts/Analytics/Buckets.antt =====
-- The buckets of a grouping: one for each key, in the order of the keys.
use pawaacdrone_fleet_operat.Common.{
  ℕ, ◌≡◌, ◌≢◌, sym, true, false, inl, inr, List, [], ◌∷◌, Str, ◌===◌, ===_iff, Bool-cases, Dict,
  put, text_lt, text_lt_trans, text_lt_total, All, map_All, arith,
}
use pawaacdrone_fleet_operat.Alerts.Analytics.{
  Count, bump, tally, insert_count, sort_counts, entries, group,
}

-- The keys rise strictly, so each has one bucket.
abbrev pub Rising : List Count → Type 0
Rising [] = Unit
Rising (c ∷ cs) = All (λ (d : Count). text_lt c.key d.key ≡ true) cs × Rising cs

abbrev Without : Str → List Count → Type 0
Without key = All (λ (d : Count). d.key ≢ key)

abbrev OncePerKey : List Count → Type 0
OncePerKey [] = Unit
OncePerKey (c ∷ cs) = Without c.key cs × OncePerKey cs

insert_count-All :
    (P : Count → Type 0) (c : Count) (ds : List Count) → P c → All P ds → All P (insert_count c ds)
unfolding insert_count
insert_count-All P c [] p h = (p, tt)
insert_count-All P c (d ∷ ds) p (h, hs) = ground (arith, insert_count-All P c ds p hs)

sort_counts-All : (P : Count → Type 0) (cs : List Count) → All P cs → All P (sort_counts cs)
unfolding sort_counts
sort_counts-All P [] h = tt
sort_counts-All P (c ∷ cs) (h, hs) =
    insert_count-All P c (sort_counts cs) h (sort_counts-All P cs hs)

-- Of two keys that differ, one is before the other.
before : (s t : Str) → t ≢ s → text_lt t s ≡ false → text_lt s t ≡ true
before s t n h = elim (text_lt_total s t) [
  | inl e ↦ absurd (n (sym e))
  | inr (inl e) ↦ e
  | inr (inr e) ↦ absurd (ground (arith, h, e))
]

insert_count-Rising :
    (c : Count) (ds : List Count) → Without c.key ds → Rising ds → Rising (insert_count c ds)
unfolding insert_count
insert_count-Rising c [] n r = (tt, tt)
insert_count-Rising c (d ∷ ds) (n, ns) (r, rs) = elim (Bool-cases (text_lt d.key c.key)) [
  | inl e ↦ rw e (
    insert_count-All (λ (x : Count). text_lt d.key x.key ≡ true) c ds e r,
    insert_count-Rising c ds ns rs,
  )
  | inr e ↦
      let first = before c.key d.key n e in
      rw e ((first, map_All (λ x h. text_lt_trans c.key d.key x.key first h) ds r), (r, rs))
]

sort_counts-Rising : (cs : List Count) → OncePerKey cs → Rising (sort_counts cs)
unfolding sort_counts
sort_counts-Rising [] h = tt
sort_counts-Rising (c ∷ cs) (h, hs) =
    insert_count-Rising c (sort_counts cs) (sort_counts-All _ cs h) (sort_counts-Rising cs hs)

put-Without :
    (i j : Str) (n : ℕ) (m : Dict ℕ)
    → j ≢ i
    → Without i (entries m)
    → Without i (entries (put j n m))
unfolding put
put-Without i j n [] q h = (q, tt)
put-Without i j n ((k, v) ∷ m) q (h, hs) = ground (arith, put-Without i j n m q hs)

put-OncePerKey :
    (j : Str) (n : ℕ) (m : Dict ℕ) → OncePerKey (entries m) → OncePerKey (entries (put j n m))
unfolding put
put-OncePerKey j n [] h = (tt, tt)
put-OncePerKey j n ((k, v) ∷ m) (h, hs) = elim (Bool-cases (k === j)) [
  | inl e ↦ rw e (h, hs)
  | inr e ↦ rw e (
    put-Without k j n m (λ q. absurd (ground (arith, (===_iff k j).1 (sym q), e))) h,
    put-OncePerKey j n m hs,
  )
]

tally-OncePerKey :
    (counts : Dict ℕ) (keys : List Str)
    → OncePerKey (entries counts)
    → OncePerKey (entries (tally counts keys))
unfolding tally bump
tally-OncePerKey counts [] h = h
tally-OncePerKey counts (key ∷ keys) h =
    tally-OncePerKey (bump key counts) keys (put-OncePerKey key _ counts h)

pub group-Rising : (keys : List Str) → Rising (group keys)
unfolding group
group-Rising keys = sort_counts-Rising _ (tally-OncePerKey [] keys tt)
