-- ===== src/Alerts/Analytics.antt =====
-- services/alert-notification/src/alerts/analytics.logic.ts. A creation time is its milliseconds since
-- 1970, or `none` where it cannot be read as a date; the printed form of an instant is a parameter.
pub mod Buckets
pub mod Conservation
mod Tests
use pawaacdrone_fleet_operat.Common.{
  ℕ, zero, suc, ◌+◌, ◌*◌, ◌/◌, Bool, true, false, not, List, [], ◌∷◌, map, Option, none, some,
  get_or, if◌then◌else◌, Str, codes, Dict, get, put, text_lt, ℤ, pos, negsuc, length,
}

pub record AlertAnalyticInput : Type 0 where
  pub zone_id : Option Str
  pub created_at : Option ℤ

-- `ZoneCount` and `HourCount`: a key and its count
pub record Count : Type 0 where
  pub key : Str
  pub count : ℕ

pub record AlertAnalytics : Type 0 where
  pub from : Str
  pub to : Str
  pub total : ℕ
  pub by_zone : List Count
  pub by_hour : List Count

abbrev pub unzoned_key : Str
unzoned_key = codes "unzoned"

abbrev pub ms_per_hour : ℕ
ms_per_hour = 3600000

-- `Math.floor(ms / MS_PER_HOUR) * MS_PER_HOUR`
unfoldable pub hour_start : ℤ → ℤ
hour_start (pos ms) = pos (ms / ms_per_hour * ms_per_hour)
hour_start (negsuc ms) = negsuc (ms / ms_per_hour * ms_per_hour + 3599999)

-- `counts.set(key, (counts.get(key) ?? 0) + 1)`
unfoldable pub bump : Str → Dict ℕ → Dict ℕ
bump key counts = put key (get_or (get key counts) 0 + 1) counts

unfoldable pub tally : Dict ℕ → List Str → Dict ℕ
unfolding bump
tally counts [] = counts
tally counts (key ∷ keys) = tally (bump key counts) keys

-- `sort` by the keys, which are distinct
unfoldable pub insert_count : Count → List Count → List Count
insert_count c [] = c ∷ []
insert_count c (d ∷ ds) = if text_lt d.key c.key then d ∷ insert_count c ds else c ∷ d ∷ ds

unfoldable pub sort_counts : List Count → List Count
unfolding insert_count
sort_counts [] = []
sort_counts (c ∷ cs) = insert_count c (sort_counts cs)

abbrev pub entries : Dict ℕ → List Count
entries [] = []
entries ((key, count) ∷ counts) = record { key = key; count = count } ∷ entries counts

unfoldable pub group : List Str → List Count
unfolding tally sort_counts
group keys = sort_counts (entries (tally [] keys))

abbrev pub zone_key : AlertAnalyticInput → Str
zone_key alert = get_or alert.zone_id unzoned_key

unfoldable pub group_by_zone : List AlertAnalyticInput → List Count
unfolding group
group_by_zone alerts = group (map zone_key alerts)

-- The keys of the hours; `none` is the error thrown at a time that is no date.
unfoldable pub hour_keys : (ℤ → Str) → List AlertAnalyticInput → Option (List Str)
unfolding hour_start
hour_keys iso [] = some []
hour_keys iso (alert ∷ alerts) = elim alert.created_at [
  | none ↦ none
  | some ms ↦ elim (hour_keys iso alerts) [
    | none ↦ none
    | some keys ↦ some (iso (hour_start ms) ∷ keys)
  ]
]

unfoldable pub group_by_hour : (ℤ → Str) → List AlertAnalyticInput → Option (List Count)
unfolding group hour_keys
group_by_hour iso alerts = elim (hour_keys iso alerts) [
  | none ↦ none
  | some keys ↦ some (group keys)
]

unfoldable pub sum_counts : List Count → ℕ
sum_counts [] = 0
sum_counts (c ∷ cs) = c.count + sum_counts cs

unfoldable pub build_analytics :
    (ℤ → Str) → List AlertAnalyticInput → Str → Str → Option AlertAnalytics
unfolding group_by_zone group_by_hour
build_analytics iso alerts from to = elim (group_by_hour iso alerts) [
  | none ↦ none
  | some hours ↦ some record {
    from = from;
    to = to;
    total = length alerts;
    by_zone = group_by_zone alerts;
    by_hour = hours;
  }
]
