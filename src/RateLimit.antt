-- ===== src/RateLimit.antt =====
-- internal/relay/ratelimit.go: a token bucket for each IP address. Times and durations are
-- nanoseconds. Each call reads the clock once here, where Go reads it up to three times within the
-- call. The maximum and the window are not negative: `envRateLimitMax` and `envRateLimitWindow`
-- yield positive numbers.
pub mod Bounds
pub mod Cleanup
pub mod Races
pub mod PerIp
mod Tests
use relayly.Base.{
  ℕ, ◌+◌, ◌-◌, ◌*◌, ◌%◌, ◌^◌, String, Bool, true, false, Option, none, some, List, [], ◌∷◌, ltb,
  leb, lookup, insert, erase, ◌==◌, string_eq, nat_eq, if◌then◌else◌,
}

pub record TokenBucket : Type 0 where
  pub tokens : ℕ
  pub max_tokens : ℕ
  pub window : ℕ
  pub window_start : ℕ
  pub last_seen : ℕ

-- A new window is started if the current one has expired.
unfoldable pub refill : ℕ → TokenBucket → TokenBucket
refill now b =
    if leb (b.window_start + b.window) now
    then record b { tokens = b.max_tokens; window_start = now }
    else b

-- `tokenBucket.allow`: the bucket after the request, and whether it is permitted.
unfoldable pub allow : ℕ → TokenBucket → TokenBucket × Bool
unfolding refill
allow now b =
    let r = refill now (record b { last_seen = now }) in
    if r.tokens == 0 then (r, false) else (record r { tokens = r.tokens - 1 }, true)

pub record IpRateLimiter : Type 0 where
  pub buckets : List (String × TokenBucket)
  pub max_tokens : ℕ
  pub window : ℕ

unfoldable pub new_ip_rate_limiter : ℕ → ℕ → IpRateLimiter
new_ip_rate_limiter max_tokens window = record {
  buckets = [];
  max_tokens = max_tokens;
  window = window;
}

-- The bucket that `LoadOrStore` stores for an address without one.
unfoldable pub full_bucket : ℕ → IpRateLimiter → TokenBucket
full_bucket now rl = record {
  tokens = rl.max_tokens;
  max_tokens = rl.max_tokens;
  window = rl.window;
  window_start = now;
  last_seen = now;
}

unfoldable pub load_or_store : ℕ → String → IpRateLimiter → TokenBucket
unfolding full_bucket
load_or_store now ip rl = elim (lookup ip rl.buckets) [ none ↦ full_bucket now rl | some b ↦ b ]

-- `IPRateLimiter.Allow`
unfoldable pub allow_ip : ℕ → String → IpRateLimiter → IpRateLimiter × Bool
allow_ip now ip rl =
    let r = allow now (load_or_store now ip rl) in
    (record rl { buckets = insert ip r.0 rl.buckets }, r.1)

-- The two halves of what `cleanupLoop` does with a bucket: it is looked at under its mutex, and
-- removed after the mutex is released.
unfoldable pub is_stale : ℕ → String → IpRateLimiter → Bool
is_stale now ip rl = elim (lookup ip rl.buckets) [
  | none ↦ false
  | some b ↦ ltb (b.last_seen + rl.window * 2) now
]

unfoldable pub evict : String → IpRateLimiter → IpRateLimiter
evict ip rl = record rl { buckets = erase ip rl.buckets }

-- One tick of `cleanupLoop` in whose middle there is no request: buckets last seen before
-- `now - 2 * window` go.
unfoldable pub sweep : ℕ → ℕ → List (String × TokenBucket) → List (String × TokenBucket)
sweep now window [] = []
sweep now window ((ip, b) ∷ rest) =
    let kept = sweep now window rest in
    if ltb (b.last_seen + window * 2) now then kept else (ip, b) ∷ kept

unfoldable pub cleanup : ℕ → IpRateLimiter → IpRateLimiter
unfolding sweep
cleanup now rl = record rl { buckets = sweep now rl.window rl.buckets }

-- The two environment variables: the value, and what `strconv.Atoi` makes of it, where a negative
-- number counts as 0.
abbrev positive : String → Option ℕ → Option ℕ
positive value parsed =
    if value == ""
    then none
    else (elim parsed [ none ↦ none | some n ↦ if n == 0 then none else some n ])

unfoldable pub env_rate_limit_max : String → Option ℕ → ℕ
env_rate_limit_max value parsed = elim (positive value parsed) [ none ↦ 10 | some n ↦ n ]

-- A `time.Duration` has 64 bits; from `2 ^ 63` on they stand for a negative one.
unfoldable pub env_rate_limit_window : String → Option ℕ → ℕ
env_rate_limit_window value parsed = elim (positive value parsed) [
  | none ↦ 60 * 1_000_000_000
  | some n ↦ n * 1_000_000_000 % 2 ^ 64
]

-- `RateLimitMiddleware`: the request's host where `net.SplitHostPort` finds one. A request that is
-- not permitted gets the status 429 in place of the next handler.
unfoldable pub rate_limit_middleware :
    ℕ → Option String → String → IpRateLimiter → IpRateLimiter × Option ℕ
rate_limit_middleware now host remote_addr rl =
    let ip : String = elim host [ none ↦ remote_addr | some h ↦ h ] in
    let r = allow_ip now ip rl in (r.0, if r.1 then none else some 429)
