-- ===== src/Alerts/Analytics/Conservation.antt =====
-- Each alert is counted once by zone and once by hour.
use pawaacdrone_fleet_operat.Common.{
  ℕ, ◌+◌, ◌*◌, ◌/◌, ◌≤◌, ◌<◌, pos, negsuc, ◌≡◌, ◌∙◌, refl, ap, codes, Option-cases, inl, inr, List,
  [], ◌∷◌, map, none, some, if◌then◌else◌, Str, ◌===◌, ===_iff, Dict, get, put, ℤ, length,
  length-map, All, arith,
}
use pawaacdrone_fleet_operat.Alerts.Analytics.{
  AlertAnalyticInput, Count, AlertAnalytics, bump, tally, insert_count, sort_counts, entries, group,
  zone_key, group_by_zone, hour_keys, hour_start, group_by_hour, sum_counts, build_analytics,
}
use pawaacdrone_fleet_operat.Alerts.Analytics.Buckets.{Rising, group-Rising}

-- How often a key occurs, and what the buckets of a key count.
abbrev pub occurrences : Str → List Str → ℕ
occurrences k [] = 0
occurrences k (j ∷ js) = (if j === k then 1 else 0) + occurrences k js

abbrev pub counted : Str → List Count → ℕ
counted k [] = 0
counted k (c ∷ cs) = (if c.key === k then c.count else 0) + counted k cs

counted-insert_count :
    (k : Str) (c : Count) (ds : List Count) → counted k (insert_count c ds) ≡ counted k (c ∷ ds)
unfolding insert_count
counted-insert_count k c [] = refl
counted-insert_count k c (d ∷ ds) = ground (arith, counted-insert_count k c ds)

counted-sort_counts : (k : Str) (cs : List Count) → counted k (sort_counts cs) ≡ counted k cs
unfolding sort_counts
counted-sort_counts k [] = refl
counted-sort_counts k (c ∷ cs) =
    omega (arith, counted-insert_count k c (sort_counts cs), counted-sort_counts k cs)

sum_counts-insert_count :
    (c : Count) (ds : List Count) → sum_counts (insert_count c ds) ≡ c.count + sum_counts ds
unfolding insert_count sum_counts
sum_counts-insert_count c [] = refl
sum_counts-insert_count c (d ∷ ds) = ground (arith, sum_counts-insert_count c ds)

sum_counts-sort_counts : (cs : List Count) → sum_counts (sort_counts cs) ≡ sum_counts cs
unfolding sort_counts sum_counts
sum_counts-sort_counts [] = refl
sum_counts-sort_counts (c ∷ cs) =
    omega (arith, sum_counts-insert_count c (sort_counts cs), sum_counts-sort_counts cs)

counted-bump :
    (k j : Str) (counts : Dict ℕ)
    → counted k (entries (bump j counts)) ≡ (if j === k then 1 else 0) + counted k (entries counts)
unfolding bump get put
counted-bump k j [] = refl
counted-bump k j ((i, n) ∷ counts) =
    ground (arith, ===_iff i j, ===_iff j k, ===_iff i k, counted-bump k j counts)

sum_counts-bump :
    (j : Str) (counts : Dict ℕ)
    → sum_counts (entries (bump j counts)) ≡ 1 + sum_counts (entries counts)
unfolding bump get put sum_counts
sum_counts-bump j [] = refl
sum_counts-bump j ((i, n) ∷ counts) = ground (arith, sum_counts-bump j counts)

counted-tally :
    (k : Str) (counts : Dict ℕ) (keys : List Str)
    → counted k (entries (tally counts keys)) ≡ counted k (entries counts) + occurrences k keys
unfolding tally
counted-tally k counts [] = omega arith
counted-tally k counts (j ∷ keys) =
    omega (arith, counted-tally k (bump j counts) keys, counted-bump k j counts)

sum_counts-tally :
    (counts : Dict ℕ) (keys : List Str)
    → sum_counts (entries (tally counts keys)) ≡ sum_counts (entries counts) + length keys
unfolding tally
sum_counts-tally counts [] = omega arith
sum_counts-tally counts (j ∷ keys) =
    omega (arith, sum_counts-tally (bump j counts) keys, sum_counts-bump j counts)

counted-group : (k : Str) (keys : List Str) → counted k (group keys) ≡ occurrences k keys
unfolding group
counted-group k keys =
    omega (arith, counted-sort_counts k (entries (tally [] keys)), counted-tally k [] keys)

sum_counts-group : (keys : List Str) → sum_counts (group keys) ≡ length keys
unfolding group sum_counts
sum_counts-group keys =
    omega (arith, sum_counts-sort_counts (entries (tally [] keys)), sum_counts-tally [] keys)

-- The time of the alert can be read as a date.
abbrev pub Dated : AlertAnalyticInput → Type 0
Dated alert = (ms : ℤ) × (alert.created_at ≡ some ms)

-- An instant `h` is the start of the UTC hour of an instant: a whole number of hours, not after it
-- and less than an hour before it. `negsuc n` is `- n - 1`.
abbrev pub IsHourStart : ℤ → ℤ → Type 0
IsHourStart (pos ms) (pos h) = ((k : ℕ) × (h ≡ k * 3600000)) × (h ≤ ms) × (ms < h + 3600000)
IsHourStart (negsuc ms) (negsuc h) =
    ((k : ℕ) × (h + 1 ≡ k * 3600000)) × (ms ≤ h) × (h < ms + 3600000)
IsHourStart (pos ms) (negsuc h) = ⊥
IsHourStart (negsuc ms) (pos h) = ⊥

hour_start-IsHourStart : (ms : ℤ) → IsHourStart ms (hour_start ms)
unfolding hour_start
hour_start-IsHourStart (pos ms) = ((ms / 3600000, refl), omega arith, omega arith)
hour_start-IsHourStart (negsuc ms) = ((ms / 3600000 + 1, omega arith), omega arith, omega arith)

-- The start of the alert's hour, printed.
abbrev pub hour_of : (ℤ → ℤ) → (ℤ → Str) → AlertAnalyticInput → Str
hour_of start iso alert = elim alert.created_at [ none ↦ [] | some ms ↦ iso (start ms) ]

hour_keys-Dated :
    (iso : ℤ → Str) (alerts : List AlertAnalyticInput)
    → All Dated alerts
    → hour_keys iso alerts ≡ some (map (hour_of hour_start iso) alerts)
unfolding hour_keys
hour_keys-Dated iso [] d = refl
hour_keys-Dated iso (alert ∷ alerts) ((ms, e), d) = rw (e) (rw (hour_keys-Dated iso alerts d) refl)

group_by_hour-Dated :
    (iso : ℤ → Str) (alerts : List AlertAnalyticInput)
    → All Dated alerts
    → group_by_hour iso alerts ≡ some (group (map (hour_of hour_start iso) alerts))
unfolding group_by_hour
group_by_hour-Dated iso alerts d = rw (hour_keys-Dated iso alerts d, group_by_hour) refl

-- The zone of the alert, or "unzoned".
abbrev pub zone_of : AlertAnalyticInput → Str
zone_of alert = elim alert.zone_id [ none ↦ codes "unzoned" | some zone ↦ zone ]

zones_of : (alerts : List AlertAnalyticInput) → map zone_key alerts ≡ map zone_of alerts
zones_of [] = refl
zones_of (alert ∷ alerts) = elim (Option-cases alert.zone_id) [
  | inl e ↦ λ i. same e i ∷ zones_of alerts i
  | inr (zone, e) ↦ λ i. known zone e i ∷ zones_of alerts i
]
  where
    same : alert.zone_id ≡ none → zone_key alert ≡ zone_of alert
    same e = rw e refl

    known : (zone : Str) → alert.zone_id ≡ some zone → zone_key alert ≡ zone_of alert
    known zone e = rw e refl

-- What the analytics of a range promise.
pub record Conserved (iso : ℤ → Str) (alerts : List AlertAnalyticInput) (r : AlertAnalytics)
    : Type 0 where
  pub total : r.total ≡ length alerts
  pub zones : sum_counts r.by_zone ≡ r.total
  pub hours : sum_counts r.by_hour ≡ r.total
  pub by_zone : (k : Str) → counted k r.by_zone ≡ occurrences k (map zone_of alerts)
  pub start : ℤ → ℤ
  pub starts : (ms : ℤ) → IsHourStart ms (start ms)
  pub by_hour : (k : Str) → counted k r.by_hour ≡ occurrences k (map (hour_of start iso) alerts)
  pub rising_zones : Rising r.by_zone
  pub rising_hours : Rising r.by_hour

-- Alerts whose times are dates are analysed: their total is their number, the counts by zone and the
-- counts by hour each add up to it, each zone counts exactly its alerts and each printed start of a
-- UTC hour those in such an hour, and the keys rise strictly, so that each has one count.
pub build_analytics-Conserved :
    (iso : ℤ → Str) (alerts : List AlertAnalyticInput) (from to : Str)
    → All Dated alerts
    → (r : AlertAnalytics) × (build_analytics iso alerts from to ≡ some r) × Conserved iso alerts r
unfolding build_analytics group_by_zone
build_analytics-Conserved iso alerts from to d =
    let hours = map (hour_of hour_start iso) alerts in
    (
      record {
        from = from;
        to = to;
        total = length alerts;
        by_zone = group_by_zone alerts;
        by_hour = group hours;
      },
      rw (group_by_hour-Dated iso alerts d, build_analytics) refl,
      record {
        total = refl;
        zones = sum_counts-group (map zone_key alerts) ∙ length-map zone_key alerts;
        hours = sum_counts-group hours ∙ length-map (hour_of hour_start iso) alerts;
        by_zone = λ k. counted-group k (map zone_key alerts) ∙ ap (occurrences k) (zones_of alerts);
        start = hour_start;
        starts = hour_start-IsHourStart;
        by_hour = λ k. counted-group k hours;
        rising_zones = group-Rising (map zone_key alerts);
        rising_hours = group-Rising hours;
      },
    )
