-- ===== src/RateLimit/Cleanup.antt =====
-- The cleanup of internal/relay/ratelimit.go only frees memory: no later request can tell.
use relayly.Base.{
  ℕ, ◌+◌, ◌≤◌, ◌≡◌, refl, ◌⊎◌, inl, inr, String, Bool, Option, none, some, List, [], ◌∷◌, arith,
  All, lookup, lookup-insert, IsMap, string_eq, eq_iff, ap, ap₂,
}
use relayly.RateLimit.{
  TokenBucket, IpRateLimiter, allow, full_bucket, load_or_store, allow_ip, sweep, cleanup,
}

-- The bucket has the limiter's settings.
abbrev pub Fits : IpRateLimiter → TokenBucket → Type 0
Fits rl b = (b.max_tokens ≡ rl.max_tokens) × (b.window ≡ rl.window)

-- At an address the second limiter holds the same bucket, or none where the first holds one whose
-- window is over at the time `t`.
abbrev pub Alike : ℕ → IpRateLimiter → Option TokenBucket → Option TokenBucket → Type 0
Alike t rl o o' =
    (o' ≡ o)
    ⊎ ((o' ≡ none)
        × ((b : TokenBucket) × (o ≡ some b) × (b.window_start + b.window ≤ t) × Fits rl b))

pub record AreAlike (t : ℕ) (rl rl' : IpRateLimiter) : Type 0 where
  pub max_same : rl'.max_tokens ≡ rl.max_tokens
  pub window_same : rl'.window ≡ rl.window
  pub alike : (ip : String) → Alike t rl (lookup ip rl.buckets) (lookup ip rl'.buckets)

-- The stored bucket of an address decides as a full bucket does once its window is over.
allow_expired :
    (t : ℕ) (rl : IpRateLimiter) (b : TokenBucket)
    → Fits rl b
    → b.window_start + b.window ≤ t
    → allow t b ≡ allow t (full_bucket t rl)
unfolding allow full_bucket
allow_expired t rl b v h = ground arith

full_bucket_same :
    (now : ℕ) (rl rl' : IpRateLimiter)
    → rl'.max_tokens ≡ rl.max_tokens
    → rl'.window ≡ rl.window
    → full_bucket now rl' ≡ full_bucket now rl
unfolding full_bucket
full_bucket_same now rl rl' m w = ground arith

-- Both limiters hand the same bucket to `allow`, or buckets on which it does the same.
allow-Alike :
    (t now : ℕ) (ip : String) (rl rl' : IpRateLimiter)
    → AreAlike t rl rl'
    → t ≤ now
    → allow now (load_or_store now ip rl') ≡ allow now (load_or_store now ip rl)
unfolding load_or_store
allow-Alike t now ip rl rl' a h =
    let same : full_bucket now rl' ≡ full_bucket now rl =
      full_bucket_same now rl rl' a.max_same a.window_same in
    elim (a.alike ip) [
      | inl e ↦ ground arith
      | inr (missing, (b, stored, over, fits)) ↦ ground (arith, allow_expired now rl b fits)
    ]

allow_ip-AreAlike :
    (t now : ℕ) (ip : String) (rl rl' : IpRateLimiter)
    → AreAlike t rl rl'
    → t ≤ now
    → AreAlike t (allow_ip now ip rl).0 (allow_ip now ip rl').0
unfolding allow_ip
allow_ip-AreAlike t now ip rl rl' a h = record {
  max_same = a.max_same;
  window_same = a.window_same;
  alike = λ k. ground (
    arith,
    a.alike k,
    allow-Alike t now ip rl rl' a h,
    lookup-insert ip k (allow now (load_or_store now ip rl)).0 rl.buckets,
    lookup-insert ip k (allow now (load_or_store now ip rl')).0 rl'.buckets,
  );
}

-- The answers to a sequence of requests, each a time and an address.
unfoldable pub answers : List (ℕ × String) → IpRateLimiter → List Bool
answers [] rl = []
answers ((now, ip) ∷ rest) rl = (allow_ip now ip rl).1 ∷ answers rest (allow_ip now ip rl).0

pub answers-AreAlike :
    (t : ℕ) (requests : List (ℕ × String)) (rl rl' : IpRateLimiter)
    → AreAlike t rl rl'
    → All (λ r. t ≤ r.0) requests
    → answers requests rl' ≡ answers requests rl
unfolding answers allow_ip
answers-AreAlike t [] rl rl' a h = refl
answers-AreAlike t ((now, ip) ∷ rest) rl rl' a h =
    ap₂ ◌∷◌ (ap (λ r. r.1) (allow-Alike t now ip rl rl' a h.0))
      (answers-AreAlike t rest _ _ (allow_ip-AreAlike t now ip rl rl' a h.0) h.1)

-- A bucket is last seen no earlier than its window started.
abbrev pub IsSeen : IpRateLimiter → Type 0
IsSeen rl = All (λ e. Fits rl e.1 × (e.1.window_start ≤ e.1.last_seen)) rl.buckets

sweep-Alike :
    (t : ℕ) (rl : IpRateLimiter) (m : List (String × TokenBucket)) (ip : String)
    → IsMap m
    → All (λ e. Fits rl e.1 × (e.1.window_start ≤ e.1.last_seen)) m
    → Alike t rl (lookup ip m) (lookup ip (sweep t rl.window m))
unfolding sweep lookup
sweep-Alike t rl [] ip h s = inl refl
sweep-Alike t rl ((k, b) ∷ m) ip h s = ground (arith, eq_iff k ip, sweep-Alike t rl m ip h.1 s.1)

-- Whenever a cleanup runs with no request in its middle, the requests from then on get the answers
-- that they would get without it, for as many requests as there are.
pub answers-cleanup :
    (t : ℕ) (requests : List (ℕ × String)) (rl : IpRateLimiter)
    → IsMap rl.buckets
    → IsSeen rl
    → All (λ r. t ≤ r.0) requests
    → answers requests (cleanup t rl) ≡ answers requests rl
unfolding cleanup
answers-cleanup t requests rl m s h =
    answers-AreAlike t requests rl _
      (record {
        max_same = refl;
        window_same = refl;
        alike = λ ip. sweep-Alike t rl rl.buckets ip m s;
      })
      h
