-- ===== src/RateLimit/Tests.antt =====
-- Instances of the theorems about internal/relay/ratelimit.go: three requests in a window of ten.
use relayly.Base.{
  ℕ, ◌≤◌, ◌≡◌, refl, String, true, false, List, [], ◌∷◌, arith, eq_iff, lookup, insert, erase,
}
use relayly.RateLimit.{TokenBucket, IpRateLimiter, allow, allow_ip, load_or_store, is_stale, evict}
use relayly.RateLimit.Cleanup.{answers}
use relayly.RateLimit.Races.{after, answers-evict}
use relayly.RateLimit.PerIp.{granted_ip, granted_ip-le}

abbrev bucket : TokenBucket
bucket = record { tokens = 3; max_tokens = 3; window = 10; window_start = 0; last_seen = 0 }

abbrev limiter : IpRateLimiter
limiter = record { buckets = ("10.0.0.1", bucket) ∷ []; max_tokens = 3; window = 10 }

abbrev requests : List (ℕ × String)
requests = (25, "10.0.0.1") ∷ (26, "10.0.0.2") ∷ (34, "10.0.0.1") ∷ []

-- Found at 25, removed after a request from another address at 26.
answers-evict_example :
    answers requests (evict "10.0.0.1" (after ((26, "10.0.0.3") ∷ []) limiter))
    ≡ true ∷ true ∷ true ∷ []
unfolding lookup insert erase answers allow_ip load_or_store allow is_stale after evict
answers-evict_example =
    answers-evict 25 "10.0.0.1" ((26, "10.0.0.3") ∷ []) requests limiter
      (((refl, refl), omega arith), tt) refl (ground (arith, eq_iff "10.0.0.3" "10.0.0.1"), tt)
      (omega arith)

abbrev strict : IpRateLimiter
strict = record limiter { max_tokens = 1 }

abbrev asked : IpRateLimiter
asked =
    after ((25, "10.0.0.1") ∷ [])
      (record strict { buckets = ("10.0.0.1", record bucket { max_tokens = 1; tokens = 1 }) ∷ [] })

-- A request of the address itself between the check and the removal is not counted: the next one is
-- permitted, and would not have been.
lost_request :
    (answers ((26, "10.0.0.1") ∷ []) (evict "10.0.0.1" asked) ≡ true ∷ [])
    × (answers ((26, "10.0.0.1") ∷ []) asked ≡ false ∷ [])
unfolding lookup insert erase answers allow_ip load_or_store allow after evict
lost_request = (refl, refl)

granted_ip-le_example : granted_ip "10.0.0.1" requests limiter ≤ 6
unfolding lookup
granted_ip-le_example =
    granted_ip-le 25 "10.0.0.1" requests limiter (λ ip b h. ground (arith, eq_iff "10.0.0.1" ip))
      (omega arith)
