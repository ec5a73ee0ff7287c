-- ===== src/RateLimit/Bounds.antt =====
-- How many requests a bucket of internal/relay/ratelimit.go permits.
use relayly.Base.{
  ℕ, ◌+◌, ◌-◌, ◌*◌, ◌≤◌, ◌<◌, ◌≡◌, refl, min, List, [], ◌∷◌, arith, All, length, nat_eq,
  if◌then◌else◌, replicate, length-replicate, ◌++◌, zero, suc,
}
use relayly.RateLimit.{TokenBucket, allow}

-- The number of permitted requests among those at the times `ts`.
unfoldable pub granted : List ℕ → TokenBucket → ℕ
granted [] b = 0
granted (t ∷ ts) b = (if (allow t b).1 then 1 else 0) + granted ts (allow t b).0

replicate-lt : (t limit n : ℕ) → t < limit → All (λ u. u < limit) (replicate n t)
replicate-lt t limit zero h = tt
replicate-lt t limit (suc n) h = (h, replicate-lt t limit n h)

abbrev pub IsValid : TokenBucket → Type 0
IsValid b = b.tokens ≤ b.max_tokens

pub allow-IsValid : (now : ℕ) (b : TokenBucket) → IsValid b → IsValid (allow now b).0
unfolding allow
allow-IsValid now b h = ground arith

granted-below :
    (limit : ℕ) (ts : List ℕ) (b : TokenBucket)
    → limit ≤ b.window_start + b.window
    → All (λ t. t < limit) ts
    → granted ts b ≡ min (length ts) b.tokens
unfolding granted allow
granted-below limit [] b l h = omega arith
granted-below limit (t ∷ ts) b l h = ground (arith, granted-below limit ts (allow t b).0)

-- Before its window is over a bucket permits as many requests as it has tokens, and no more.
granted-in_window :
    (ts : List ℕ) (b : TokenBucket)
    → All (λ t. t < b.window_start + b.window) ts
    → granted ts b ≡ min (length ts) b.tokens
granted-in_window ts b h = granted-below (b.window_start + b.window) ts b (omega arith) h

granted-after :
    (start limit : ℕ) (ts : List ℕ) (b : TokenBucket)
    → start ≤ b.window_start
    → limit ≤ start + b.window
    → All (λ t. (start ≤ t) × (t < limit)) ts
    → granted ts b ≤ b.tokens
unfolding granted allow
granted-after start limit [] b s l h = omega arith
granted-after start limit (t ∷ ts) b s l h =
    ground (arith, granted-after start limit ts (allow t b).0)

granted-span :
    (start limit : ℕ) (ts : List ℕ) (b : TokenBucket)
    → IsValid b
    → limit ≤ start + b.window
    → All (λ t. (start ≤ t) × (t < limit)) ts
    → granted ts b ≤ b.tokens + b.max_tokens
unfolding granted allow
granted-span start limit [] b v l h = omega arith
granted-span start limit (t ∷ ts) b v l h =
    ground
      (arith, granted-span start limit ts (allow t b).0, granted-after start limit ts (allow t b).0)

-- In any span of time no longer than the window, wherever it starts, a bucket permits at most
-- twice its maximum.
pub granted-le :
    (start : ℕ) (ts : List ℕ) (b : TokenBucket)
    → IsValid b
    → All (λ t. (start ≤ t) × (t < start + b.window)) ts
    → granted ts b ≤ 2 * b.max_tokens
granted-le start ts b v h =
    omega (arith, granted-span start (start + b.window) ts b v (omega arith) h)

-- A window that is over starts anew with the next request.
granted_expired :
    (t : ℕ) (n : ℕ) (b : TokenBucket)
    → b.window_start + b.window ≤ t
    → 0 < b.window
    → granted (replicate n t) b ≡ min n b.max_tokens
unfolding granted allow
granted_expired t zero b over w = omega arith
granted_expired t (suc n) b over w = ground (
  arith,
  granted-below (t + b.window) (replicate n t) (allow t b).0,
  replicate-lt t (t + b.window) n,
  length-replicate n t,
)

spent : List ℕ → TokenBucket → TokenBucket
spent [] b = b
spent (t ∷ ts) b = spent ts (allow t b).0

granted-append :
    (ts us : List ℕ) (b : TokenBucket)
    → granted (ts ++ us) b ≡ granted ts b + granted us (spent ts b)
unfolding granted spent
granted-append [] us b = omega arith
granted-append (t ∷ ts) us b = omega (arith, granted-append ts us (allow t b).0)

spent-below :
    (n t : ℕ) (b : TokenBucket)
    → t < b.window_start + b.window
    → let c = spent (replicate n t) b in
      (c.window_start ≡ b.window_start) × (c.window ≡ b.window) × (c.max_tokens ≡ b.max_tokens)
unfolding spent allow
spent-below zero t b h = (refl, refl, refl)
spent-below (suc n) t b h = ground (arith, spent-below n t (allow t b).0)

-- A full bucket permits twice its maximum within two adjacent instants, the last of one window and
-- the first of the next.
pub granted_burst :
    (b : TokenBucket)
    → b.tokens ≡ b.max_tokens
    → 0 < b.window
    → let last = b.window_start + b.window - 1 in
      granted (replicate b.max_tokens last ++ replicate b.max_tokens (last + 1)) b
      ≡ 2 * b.max_tokens
granted_burst b full w =
    let n = b.max_tokens in
    let last = b.window_start + b.window - 1 in
    omega (
      arith,
      granted-append (replicate n last) (replicate n (last + 1)) b,
      granted-below (last + 1) (replicate n last) b (omega arith)
          (replicate-lt last (last + 1) n (omega arith)),
      length-replicate n last,
      spent-below n last b (omega arith),
      granted_expired (last + 1) n (spent (replicate n last) b)
          (omega (arith, spent-below n last b (omega arith)))
          (omega (arith, spent-below n last b (omega arith))),
    )
