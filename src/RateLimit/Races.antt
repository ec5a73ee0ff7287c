-- ===== src/RateLimit/Races.antt =====
-- The cleanup of internal/relay/ratelimit.go among requests that come while it is at work.
use relayly.Base.{
  ℕ, ◌≤◌, ◌≡◌, ◌≢◌, refl, ◌∙◌, inl, inr, String, true, some, List, [], ◌∷◌, arith, All, lookup,
  lookup-insert, lookup-erase, string_eq, eq_iff, nat_eq, Option-cases,
}
use relayly.RateLimit.{TokenBucket, IpRateLimiter, allow, allow_ip, load_or_store, is_stale, evict}
use relayly.RateLimit.Cleanup.{Fits, IsSeen, AreAlike, answers, answers-AreAlike}

-- The limiter after requests.
unfoldable pub after : List (ℕ × String) → IpRateLimiter → IpRateLimiter
after [] rl = rl
after ((now, ip) ∷ rest) rl = after rest (allow_ip now ip rl).0

after-elsewhere :
    (ip : String) (requests : List (ℕ × String)) (rl : IpRateLimiter)
    → All (λ r. r.1 ≢ ip) requests
    → (lookup ip (after requests rl).buckets ≡ lookup ip rl.buckets)
      × ((after requests rl).max_tokens ≡ rl.max_tokens)
      × ((after requests rl).window ≡ rl.window)
unfolding after allow_ip
after-elsewhere ip [] rl h = (refl, refl, refl)
after-elsewhere ip ((now, other) ∷ rest) rl h =
    let (at, m, w) = after-elsewhere ip rest (allow_ip now other rl).0 h.1 in
    (
      at
          ∙ ground (
            arith,
            lookup-insert other ip (allow now (load_or_store now other rl)).0 rl.buckets,
            eq_iff other ip,
            h.0,
          ),
      m,
      w,
    )

seen_at :
    (rl : IpRateLimiter) (m : List (String × TokenBucket)) (ip : String) (b : TokenBucket)
    → All (λ e. Fits rl e.1 × (e.1.window_start ≤ e.1.last_seen)) m
    → lookup ip m ≡ some b
    → Fits rl b × (b.window_start ≤ b.last_seen)
unfolding lookup
seen_at rl [] ip b s e = absurd (ground arith)
seen_at rl ((k, c) ∷ m) ip b s e = ground (arith, seen_at rl m ip b s.1)

evict-AreAlike :
    (t : ℕ) (ip : String) (between : List (ℕ × String)) (rl : IpRateLimiter)
    → IsSeen rl
    → is_stale t ip rl ≡ true
    → All (λ r. r.1 ≢ ip) between
    → AreAlike t (after between rl) (evict ip (after between rl))
unfolding evict is_stale
evict-AreAlike t ip between rl seen stale others =
    let now = after between rl in
    let (at, m, w) = after-elsewhere ip between rl others in
    elim (Option-cases (lookup ip rl.buckets)) [
      | inl e ↦ absurd (ground arith)
      | inr (b, e) ↦ record {
        max_same = refl;
        window_same = refl;
        alike = λ k. ground (
          arith,
          seen_at rl rl.buckets ip b seen e,
          at,
          m,
          w,
          lookup-erase ip k now.buckets,
          eq_iff ip k,
        );
      }
    ]

-- If the cleanup finds an address's bucket stale and removes it later, after requests from whatever
-- other addresses and none from that one, every sequence of requests from then on, none of them
-- earlier than the check, gets the answers that it would get without the removal, for buckets with
-- the limiter's settings that were last seen no earlier than their windows started.
pub answers-evict :
    (t : ℕ) (ip : String) (between later : List (ℕ × String)) (rl : IpRateLimiter)
    → IsSeen rl
    → is_stale t ip rl ≡ true
    → All (λ r. r.1 ≢ ip) between
    → All (λ r. t ≤ r.0) later
    → answers later (evict ip (after between rl)) ≡ answers later (after between rl)
answers-evict t ip between later rl seen stale others late =
    answers-AreAlike t later (after between rl) _ (evict-AreAlike t ip between rl seen stale others)
      late
