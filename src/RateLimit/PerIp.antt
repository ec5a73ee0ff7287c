-- ===== src/RateLimit/PerIp.antt =====
-- `IPRateLimiter` of internal/relay/ratelimit.go: the bound for each address, whatever requests of
-- other addresses come in between.
use relayly.Base.{
  ℕ, ◌+◌, ◌*◌, ◌≤◌, ◌<◌, ◌≡◌, refl, String, none, some, List, [], ◌∷◌, arith, All, lookup,
  lookup-insert, ◌==◌, string_eq, eq_iff, if◌then◌else◌, inl, inr, Option-cases, Bool-cases,
}
use relayly.RateLimit.{TokenBucket, IpRateLimiter, allow, full_bucket, load_or_store, allow_ip}
use relayly.RateLimit.Bounds.{granted, granted-le}

-- The number of permitted requests of one address among those of all.
unfoldable pub granted_ip : String → List (ℕ × String) → IpRateLimiter → ℕ
granted_ip ip [] rl = 0
granted_ip ip ((t, k) ∷ rest) rl =
    (if k == ip then (if (allow_ip t k rl).1 then 1 else 0) else 0)
    + granted_ip ip rest (allow_ip t k rl).0

times : String → List (ℕ × String) → List ℕ
times ip [] = []
times ip ((t, k) ∷ rest) = let more = times ip rest in if k == ip then t ∷ more else more

abbrev pub Within : ℕ → ℕ → List (ℕ × String) → Type 0
Within start limit = All (λ r. (start ≤ r.0) × (r.0 < limit))

times-Within :
    (start limit : ℕ) (ip : String) (requests : List (ℕ × String))
    → Within start limit requests
    → All (λ t. (start ≤ t) × (t < limit)) (times ip requests)
unfolding times
times-Within start limit ip [] h = tt
times-Within start limit ip ((t, k) ∷ rest) h = ground (arith, times-Within start limit ip rest h.1)

lookup-allow_ip :
    (t : ℕ) (k j : String) (rl : IpRateLimiter)
    → lookup j (allow_ip t k rl).0.buckets
      ≡ (if k == j then some (allow t (load_or_store t k rl)).0 else lookup j rl.buckets)
unfolding allow_ip
lookup-allow_ip t k j rl = lookup-insert k j (allow t (load_or_store t k rl)).0 rl.buckets

allow_ip-settings :
    (t : ℕ) (k : String) (rl : IpRateLimiter)
    → ((allow_ip t k rl).0.max_tokens ≡ rl.max_tokens)
      × ((allow_ip t k rl).0.window ≡ rl.window)
      × ((allow_ip t k rl).1 ≡ (allow t (load_or_store t k rl)).1)
unfolding allow_ip
allow_ip-settings t k rl = (refl, refl, refl)

granted_ip-stored :
    (ip : String) (requests : List (ℕ × String)) (rl : IpRateLimiter) (b : TokenBucket)
    → lookup ip rl.buckets ≡ some b
    → granted_ip ip requests rl ≡ granted (times ip requests) b
unfolding granted_ip times granted load_or_store
granted_ip-stored ip [] rl b e = refl
granted_ip-stored ip ((t, k) ∷ rest) rl b e = elim (Bool-cases (k == ip)) [
  | inl own ↦
      let same : k ≡ ip = (eq_iff k ip).0 own in
      ground (
        arith,
        lookup-allow_ip t k ip rl,
        allow_ip-settings t k rl,
        granted_ip-stored ip rest (allow_ip t k rl).0 (allow t b).0,
      )
  | inr other ↦
      ground (arith, lookup-allow_ip t k ip rl, granted_ip-stored ip rest (allow_ip t k rl).0 b)
]

-- With no bucket yet, the address's first request finds a full one.
granted_ip-none :
    (start : ℕ) (ip : String) (requests : List (ℕ × String)) (rl : IpRateLimiter)
    → lookup ip rl.buckets ≡ none
    → Within start (start + rl.window) requests
    → granted_ip ip requests rl ≤ 2 * rl.max_tokens
unfolding granted_ip granted load_or_store full_bucket
granted_ip-none start ip [] rl e h = omega arith
granted_ip-none start ip ((t, k) ∷ rest) rl e h = elim (Bool-cases (k == ip)) [
  | inl own ↦
      let same : k ≡ ip = (eq_iff k ip).0 own in
      ground (
        arith,
        lookup-allow_ip t k ip rl,
        allow_ip-settings t k rl,
        granted_ip-stored ip rest (allow_ip t k rl).0 (allow t (full_bucket t rl)).0,
        granted-le start (t ∷ times ip rest) (full_bucket t rl) (omega arith)
            (h.0, times-Within start (start + rl.window) ip rest h.1),
      )
  | inr other ↦ ground (
    arith,
    lookup-allow_ip t k ip rl,
    allow_ip-settings t k rl,
    granted_ip-none start ip rest (allow_ip t k rl).0,
  )
]

-- Every bucket has the limiter's settings and holds no more than the maximum.
abbrev pub IsFitted : IpRateLimiter → Type 0
IsFitted rl =
    (ip : String) (b : TokenBucket)
    → lookup ip rl.buckets ≡ some b
    → (b.max_tokens ≡ rl.max_tokens) × (b.window ≡ rl.window) × (b.tokens ≤ b.max_tokens)

-- In any span of time no longer than the window, wherever it starts and whatever other addresses
-- ask, one address is permitted at most twice the maximum.
pub granted_ip-le :
    (start : ℕ) (ip : String) (requests : List (ℕ × String)) (rl : IpRateLimiter)
    → IsFitted rl
    → Within start (start + rl.window) requests
    → granted_ip ip requests rl ≤ 2 * rl.max_tokens
granted_ip-le start ip requests rl v h = elim (Option-cases (lookup ip rl.buckets)) [
  | inl e ↦ granted_ip-none start ip requests rl e h
  | inr (b, e) ↦
      let (m, w, bound) = v ip b e in
      let asked : Within start (start + b.window) requests = rw w h in
      ground (
        arith,
        granted_ip-stored ip requests rl b e,
        granted-le start (times ip requests) b bound
            (times-Within start (start + b.window) ip requests asked),
      )
]
