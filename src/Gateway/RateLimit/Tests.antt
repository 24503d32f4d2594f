-- ===== src/Gateway/RateLimit/Tests.antt =====
-- The rate limiter over an exact Redis in memory, and the theorems at it.
use pawaacdrone_fleet_operat.Common.{
  false, ◌≤◌, ◌<◌, ◌*◌, ◌+◌, ◌≡◌, refl, [], ◌∷◌, none, some, Str, ◌===◌, if◌then◌else◌, arith, pos,
  length, filter,
}
use pawaacdrone_fleet_operat.Gateway.{Role, viewer}
use pawaacdrone_fleet_operat.Gateway.RateLimit.{
  RateLimitRule, RedisCounters, Entry, live_at, count_of, deadline_of, with_deadline,
  decide_rate_limit, consume_all,
}
use pawaacdrone_fleet_operat.Gateway.RateLimit.Decision.{decide_rate_limit-retry}
use pawaacdrone_fleet_operat.Gateway.RateLimit.Quota.{consume_all-quota}

abbrev pub memory : RedisCounters
memory = record {
  State = Str → Entry;
  entry = λ s k. s k;
  incr = λ s now k. (
    (λ j.
        if k === j
        then some (count_of (live_at (s k) now) + 1, deadline_of (live_at (s k) now))
        else s j),
    count_of (live_at (s k) now) + 1,
  );
  pexpire = λ s now k ms j. if k === j then with_deadline (s k) (now + ms) else s j;
  pttl = λ s now k. pos 500;
  incr-value = λ s now k. refl;
  entry-incr = λ s now k j. refl;
  entry-pexpire = λ s now k ms j. refl;
}

abbrev pub two_a_minute : Role → RateLimitRule
two_a_minute role = record { limit = 2; window_sec = 60 }

decide_rate_limit-retry_example :
    ((decide_rate_limit 3 (two_a_minute viewer) (pos 500)).allowed ≡ false)
    × ((decide_rate_limit 3 (two_a_minute viewer) (pos 500)).remaining ≡ 0)
    × (500 ≤ (decide_rate_limit 3 (two_a_minute viewer) (pos 500)).retry_after_sec * 1000)
    × ((decide_rate_limit 3 (two_a_minute viewer) (pos 500)).retry_after_sec * 1000 < 500 + 1000)
decide_rate_limit-retry_example =
    decide_rate_limit-retry 3 500 (two_a_minute viewer) (omega arith) (omega arith)

consume_all-quota_example :
    length (
      filter
        (λ d. d.allowed)
        (consume_all memory
          (λ n. n ∷ [])
          two_a_minute
          (λ k. none)
          viewer
          (60000 ∷ 60001 ∷ 119999 ∷ [])))
    ≡ 2
consume_all-quota_example =
    consume_all-quota memory (λ n. n ∷ []) two_a_minute (λ k. none) viewer 1
      (60000 ∷ 60001 ∷ 119999 ∷ []) (omega arith) (refl, (refl, (refl, tt))) refl
