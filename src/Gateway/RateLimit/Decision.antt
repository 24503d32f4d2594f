-- ===== src/Gateway/RateLimit/Decision.antt =====
-- The answer to a request over its quota.
use pawaacdrone_fleet_operat.Common.{ℕ, ◌+◌, ◌*◌, ◌≤◌, ◌<◌, ◌≡◌, false, arith, pos}
use pawaacdrone_fleet_operat.Gateway.RateLimit.{RateLimitRule, decide_rate_limit}

-- A request over the limit in a window that still runs for `ms` milliseconds is denied with nothing
-- left, and the seconds it is told to wait cover the window, by less than a second.
pub decide_rate_limit-retry :
    (count ms : ℕ) (rule : RateLimitRule)
    → rule.limit < count
    → 1 ≤ ms
    → ((decide_rate_limit count rule (pos ms)).allowed ≡ false)
      × ((decide_rate_limit count rule (pos ms)).remaining ≡ 0)
      × (ms ≤ (decide_rate_limit count rule (pos ms)).retry_after_sec * 1000)
      × ((decide_rate_limit count rule (pos ms)).retry_after_sec * 1000 < ms + 1000)
unfolding decide_rate_limit
decide_rate_limit-retry count ms rule h l = (ground arith, ground arith, ground arith, ground arith)
