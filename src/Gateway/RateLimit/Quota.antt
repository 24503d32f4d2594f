-- ===== src/Gateway/RateLimit/Quota.antt =====
-- The quota of a role over one window.
use native.Mathlib.Nat.{div-add-mod, mod-lt}
use pawaacdrone_fleet_operat.Common.{
  Bool, ℕ, ℤ, codes, ◌++◌, zero, suc, ◌+◌, ◌-◌, ◌*◌, ◌/◌, ◌%◌, ◌≤◌, ◌<◌, ◌≡◌, ap, ◌∙◌, subst, true,
  false, List, [], ◌∷◌, none, some, Str, arith, min, All, filter, length, ===_refl, ◌===◌, ◌==◌,
  if◌then◌else◌, leb,
}
use pawaacdrone_fleet_operat.Gateway.{Role, role_name}
use pawaacdrone_fleet_operat.Gateway.RateLimit.{
  RateLimitRule, RateLimitDecision, RedisCounters, rate_limit_key, fixed_window_script, consume,
  consume_all, decide_rate_limit, live_at, count_of, deadline_of, with_deadline, Entry,
}

-- A time lies in the window of its number.
window_bounds :
    (t w : ℕ) → 0 < w → (w * (t / 1000 / w) * 1000 ≤ t) × (t < (w * (t / 1000 / w) + w) * 1000)
window_bounds t w h =
    let d : w * (t / 1000 / w) + t / 1000 % w ≡ t / 1000 = div-add-mod (t / 1000) w in
    let m : t / 1000 % w < w = mod-lt (t / 1000) h in (omega arith, omega arith)

if_same {ℓ} : {A : Type ℓ} (k : Str) (x y : A) → (if k === k then x else y) ≡ x
if_same k x y = ap (λ b. if b then x else y) (===_refl k)

not_one : (n : ℕ) → (suc (suc n) == 1) ≡ false
not_one n = ground arith

still_live : (c d now : ℕ) → now < d → live_at (some (c, some d)) now ≡ some (c, some d)
still_live c d now h = ground arith

decide_rate_limit-allowed :
    (count : ℕ) (rule : RateLimitRule) (ttl : ℤ)
    → (decide_rate_limit count rule ttl).allowed ≡ leb count rule.limit
unfolding decide_rate_limit
decide_rate_limit-allowed count rule ttl = ground arith

length-kept :
    (b : Bool) (d : RateLimitDecision) (ds : List RateLimitDecision)
    → length (if b then d ∷ ds else ds) ≡ (if b then 1 else 0) + length ds
length-kept true d ds = omega arith
length-kept false d ds = omega arith

module _ (redis : RedisCounters) (show : ℕ → Str) (config : Role → RateLimitRule) where
  -- The counter of a window after `n` requests: it lives until the window is over.
  abbrev Counted : ℕ → ℕ → Entry → Type 0
  Counted last zero e = e ≡ none
  Counted last (suc n) e = (d : ℕ) × (e ≡ some (suc n, some d)) × (last ≤ d)

  script_counts :
      (s : redis.State) (now : ℕ) (key : Str) (window_ms n last : ℕ)
      → Counted last n (redis.entry s key)
      → now < last
      → last ≤ now + window_ms
      → ((fixed_window_script redis show config s now key window_ms).1 ≡ suc n)
        × Counted last
            (suc n)
            (redis.entry (fixed_window_script redis show config s now key window_ms).0 key)
  unfolding fixed_window_script
  script_counts s now key window_ms zero last c l g =
      let counted = redis.incr s now key in
      let one : counted.1 ≡ 1 =
        redis.incr-value s now key ∙ ap (λ e. count_of (live_at e now) + 1) c in
      let stored : redis.entry counted.0 key ≡ some (1, none) =
        redis.entry-incr s now key key
        ∙ if_same key _ _
        ∙ ap (λ e. some (count_of (live_at e now) + 1, deadline_of (live_at e now))) c in
      let timed = redis.entry-pexpire counted.0 now key window_ms key in
      (
        one,
        (
          now + window_ms,
          ap
                (λ m.
                  redis.entry
                    (if m == 1 then redis.pexpire counted.0 now key window_ms else counted.0) key)
                one
              ∙ timed
              ∙ if_same key _ _
              ∙ ap (λ e. with_deadline e (now + window_ms)) stored,
          g,
        ),
      )
  script_counts s now key window_ms (suc n) last (d, e, k) l g =
      let counted = redis.incr s now key in
      let alive : live_at (redis.entry s key) now ≡ some (suc n, some d) =
        ap (λ x. live_at x now) e ∙ still_live (suc n) d now (omega arith) in
      let more : counted.1 ≡ suc (suc n) =
        redis.incr-value s now key ∙ ap (λ e. count_of e + 1) alive ∙ omega arith in
      let stored : redis.entry counted.0 key ≡ some (suc (suc n), some d) =
        redis.entry-incr s now key key
        ∙ if_same key _ _
        ∙ ap (λ e. some (count_of e + 1, deadline_of e)) alive
        ∙ ap (λ m. some (m, some d)) (omega arith) in
      (
        more,
        (
          d,
          ap
                (λ b.
                  redis.entry (if b then redis.pexpire counted.0 now key window_ms else counted.0)
                    key)
                (ap (λ m. m == 1) more ∙ not_one n)
              ∙ stored,
          k,
        ),
      )

  -- The key of a role in the window of a number.
  abbrev window_key : Role → ℕ → Str
  window_key role i = codes "ratelimit:" ++ (role_name role ++ (codes ":" ++ show i))

  abbrev window_end : Role → ℕ → ℕ
  window_end role i = ((config role).window_sec * i + (config role).window_sec) * 1000

  one_request :
      (s : redis.State) (now : ℕ) (role : Role) (i n : ℕ)
      → 0 < (config role).window_sec
      → now / 1000 / (config role).window_sec ≡ i
      → Counted (window_end role i) n (redis.entry s (window_key role i))
      → ((consume redis show config s now role).1.allowed ≡ leb (suc n) (config role).limit)
        × Counted
            (window_end role i)
            (suc n)
            (redis.entry (consume redis show config s now role).0 (window_key role i))
  unfolding consume rate_limit_key
  one_request s now role i n h e =
      subst
        (λ i.
          Counted (window_end role i) n (redis.entry s (window_key role i))
          → ((consume redis show config s now role).1.allowed ≡ leb (suc n) (config role).limit)
            × Counted (window_end role i) (suc n)
                (redis.entry (consume redis show config s now role).0 (window_key role i)))
        e
        (λ c.
          let (low, high) = window_bounds now (config role).window_sec h in
          let (count, counted) =
            script_counts s now (window_key role (now / 1000 / (config role).window_sec))
              ((config role).window_sec * 1000) n
              (window_end role (now / 1000 / (config role).window_sec)) c high (omega arith) in
          (
            decide_rate_limit-allowed _ (config role) _ ∙ ap (λ m. leb m (config role).limit) count,
            counted,
          ))

  allowed_from :
      (s : redis.State) (role : Role) (i n : ℕ) (times : List ℕ)
      → 0 < (config role).window_sec
      → All (λ now. now / 1000 / (config role).window_sec ≡ i) times
      → Counted (window_end role i) n (redis.entry s (window_key role i))
      → length (filter (λ d. d.allowed) (consume_all redis show config s role times))
        ≡ min (length times) ((config role).limit - n)
  unfolding consume_all
  allowed_from s role i n [] h a c = omega arith
  allowed_from s role i n (now ∷ times) h (e, a) c =
      let (p, d) = one_request s now role i n h e c in
      let rest = allowed_from (consume redis show config s now role).0 role i (suc n) times h a d in
      length-kept (consume redis show config s now role).1.allowed
        (consume redis show config s now role).1 _
      ∙ ap (λ m. (if (consume redis show config s now role).1.allowed then 1 else 0) + m) rest
      ∙ ap (λ b. (if b then 1 else 0) + min (length times) ((config role).limit - suc n)) p
      ∙ ground arith

  -- Of the requests of a role within one window, however many and whenever they come, exactly as
  -- many are allowed as the limit of the role, or all if they are fewer, provided that the window
  -- is not empty and its counter not yet there.
  pub consume_all-quota :
      (s : redis.State) (role : Role) (i : ℕ) (times : List ℕ)
      → 0 < (config role).window_sec
      → All (λ now. now / 1000 / (config role).window_sec ≡ i) times
      → redis.entry s (window_key role i) ≡ none
      → length (filter (λ d. d.allowed) (consume_all redis show config s role times))
        ≡ min (length times) (config role).limit
  consume_all-quota s role i times h a e = allowed_from s role i 0 times h a e ∙ omega arith
