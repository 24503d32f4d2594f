-- ===== src/Gateway/RateLimit.antt =====
-- services/api-gateway/src/rate-limit: rate-limit.ts, and the limiter of rate-limiter.service.ts
-- with its Lua script over the Redis commands, which are parameters.
pub mod Decision
pub mod Quota
pub mod Tests
use pawaacdrone_fleet_operat.Common.{
  ℕ, ◌+◌, ◌-◌, ◌*◌, ◌/◌, ◌≡◌, max, Bool, true, false, List, [], ◌∷◌, ◌++◌, Option, none, some, Str,
  codes, ◌===◌, ◌==◌, ltb, leb, if◌then◌else◌, ℤ, pos, negsuc,
}
use pawaacdrone_fleet_operat.Gateway.{Role, role_name}

pub record RateLimitRule : Type 0 where
  pub limit : ℕ
  pub window_sec : ℕ

pub record RateLimitDecision : Type 0 where
  pub allowed : Bool
  pub limit : ℕ
  pub remaining : ℕ
  pub retry_after_sec : ℕ

-- `ttlMs > 0 ? Math.ceil(ttlMs / 1000) : rule.windowSec`
unfoldable pub ttl_seconds : ℤ → ℕ → ℕ
ttl_seconds (pos ttl_ms) window_sec = if ltb 0 ttl_ms then (ttl_ms + 999) / 1000 else window_sec
ttl_seconds (negsuc n) window_sec = window_sec

unfoldable pub decide_rate_limit : ℕ → RateLimitRule → ℤ → RateLimitDecision
unfolding ttl_seconds
decide_rate_limit count rule ttl_ms =
    if leb count rule.limit
    then record {
      allowed = true;
      limit = rule.limit;
      remaining = rule.limit - count;
      retry_after_sec = 0;
    }
    else record {
      allowed = false;
      limit = rule.limit;
      remaining = 0;
      retry_after_sec = max 1 (ttl_seconds ttl_ms rule.window_sec);
    }

-- A counter key: its value, and the time at which it expires, if it does.
abbrev pub Entry : Type 0
Entry = Option (ℕ × Option ℕ)

-- What is left of an entry at a time.
abbrev pub live_at : Entry → ℕ → Entry
live_at none now = none
live_at (some (count, none)) now = some (count, none)
live_at (some (count, some deadline)) now =
    if ltb now deadline then some (count, some deadline) else none

abbrev pub count_of : Entry → ℕ
count_of none = 0
count_of (some (count, deadline)) = count

abbrev pub deadline_of : Entry → Option ℕ
deadline_of none = none
deadline_of (some (count, deadline)) = deadline

abbrev pub with_deadline : Entry → ℕ → Entry
with_deadline none deadline = none
with_deadline (some (count, old)) deadline = some (count, some deadline)

-- INCR, PEXPIRE and PTTL as Redis documents them; `entry` is what is stored under a key.
pub record RedisCounters : Type 1 where
  pub State : Type 0
  pub entry : State → Str → Entry
  pub incr : State → ℕ → Str → State × ℕ
  pub pexpire : State → ℕ → Str → ℕ → State
  pub pttl : State → ℕ → Str → ℤ
  pub incr-value :
      (s : State) (now : ℕ) (k : Str) → (incr s now k).1 ≡ count_of (live_at (entry s k) now) + 1
  pub entry-incr :
      (s : State) (now : ℕ) (k j : Str)
      → entry (incr s now k).0 j ≡ (
          if k === j
          then some (count_of (live_at (entry s k) now) + 1, deadline_of (live_at (entry s k) now))
          else entry s j)
  pub entry-pexpire :
      (s : State) (now : ℕ) (k : Str) (ms : ℕ) (j : Str)
      → entry (pexpire s now k ms) j
        ≡ (if k === j then with_deadline (entry s k) (now + ms) else entry s j)

-- `show` prints a number; times are milliseconds since 1970, and no window is empty.
module _ (redis : RedisCounters) (show : ℕ → Str) (config : Role → RateLimitRule) where
  unfoldable pub rate_limit_key : Role → ℕ → ℕ → Str
  rate_limit_key role window_sec now_sec =
      codes "ratelimit:" ++ (role_name role ++ (codes ":" ++ show (now_sec / window_sec)))

  -- FIXED_WINDOW_SCRIPT
  unfoldable pub fixed_window_script : redis.State → ℕ → Str → ℕ → redis.State × ℕ × ℤ
  fixed_window_script s now key window_ms =
      let (counted, current) = redis.incr s now key in
      let timed = if current == 1 then redis.pexpire counted now key window_ms else counted in
      (timed, current, redis.pttl timed now key)

  unfoldable pub consume : redis.State → ℕ → Role → redis.State × RateLimitDecision
  consume s now role =
      let rule = config role in
      let key = rate_limit_key role rule.window_sec (now / 1000) in
      let (s', count, ttl_ms) = fixed_window_script s now key (rule.window_sec * 1000) in
      (s', decide_rate_limit count rule ttl_ms)

  -- Requests of a role, one after the other, at the given times.
  unfoldable pub consume_all : redis.State → Role → List ℕ → List RateLimitDecision
  consume_all s role [] = []
  consume_all s role (now ∷ later) =
      let (s', decision) = consume s now role in decision ∷ consume_all s' role later
