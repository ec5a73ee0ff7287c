-- ===== src/Sdk/Backoff.antt =====
-- `reconnectWithBackoff` of sdk/go/client.go. Durations are nanoseconds; that they do not overflow
-- sixty-three bits is left to the options.
use relayly.Base.{
  ℕ, zero, suc, ◌*◌, ◌^◌, ◌≡◌, refl, Bool, true, false, Option, none, some, List, [], ◌∷◌, arith,
  ltb, ◌==◌, nat_eq, if◌then◌else◌, replicate, min, ◌++◌,
}

abbrev pub default_reconnect_delay : ℕ
default_reconnect_delay = 1_000_000_000

abbrev pub default_max_reconnect_delay : ℕ
default_max_reconnect_delay = 60_000_000_000

-- What ends a wait: the client is closed, or dialling fails or succeeds.
pub data Attempt : Type 0 where
  closes fails connects : Attempt

unfoldable pub next_delay : ℕ → ℕ → ℕ
next_delay most delay = if ltb most (delay * 2) then most else delay * 2

-- The waits, and the result once the loop has returned.
unfoldable pub retry : ℕ → ℕ → List Attempt → List ℕ × Option Bool
retry most delay [] = (delay ∷ [], none)
retry most delay (closes ∷ rest) = (delay ∷ [], some false)
retry most delay (connects ∷ rest) = (delay ∷ [], some true)
retry most delay (fails ∷ rest) =
    let later = retry most (next_delay most delay) rest in (delay ∷ later.0, later.1)

abbrev or_default : ℕ → ℕ → ℕ
or_default default delay = if delay == 0 then default else delay

-- `none` stands for a negative `ReconnectDelay`; a negative `MaxReconnectDelay`, with which Go
-- dials again at once, is left out.
unfoldable pub reconnect_with_backoff : Option ℕ → ℕ → List Attempt → List ℕ × Option Bool
reconnect_with_backoff none max_delay attempts = ([], some false)
reconnect_with_backoff (some delay) max_delay attempts =
    retry (or_default default_max_reconnect_delay max_delay)
      (or_default default_reconnect_delay delay) attempts

-- The wait after a number of failures.
abbrev pub capped : ℕ → ℕ → ℕ → ℕ
capped most delay zero = delay
capped most delay (suc k) = min most (delay * 2 ^ suc k)

next_delay-capped :
    (most delay k : ℕ) → next_delay most (capped most delay k) ≡ capped most delay (suc k)
unfolding next_delay
next_delay-capped most delay zero = ground arith
next_delay-capped most delay (suc k) = ground (arith, double delay k)
  where
    double : (d n : ℕ) → d * 2 ^ suc (suc n) ≡ d * 2 ^ suc n * 2
    double d n = grind arith

-- The waits after `k` failures and `n` more.
unfoldable pub waits_from : ℕ → ℕ → ℕ → ℕ → List ℕ
waits_from most delay k zero = capped most delay k ∷ []
waits_from most delay k (suc n) = capped most delay k ∷ waits_from most delay (suc k) n

retry-waits_from :
    (most delay k n : ℕ) (rest : List Attempt)
    → retry most (capped most delay k) (replicate n fails ++ connects ∷ rest)
      ≡ (waits_from most delay k n, some true)
unfolding retry waits_from
retry-waits_from most delay k zero rest = refl
retry-waits_from most delay k (suc n) rest =
    rw (next_delay-capped most delay k, retry-waits_from most delay (suc k) n rest) refl

-- However often dialling fails, the client connects once it succeeds, unless it is closed; the
-- first wait is the configured delay, and the one after `k` failures, for a positive `k`, the least
-- of that delay times `2 ^ k` and the configured maximum, each one second and one minute by
-- default.
pub reconnect_with_backoff_lem :
    (delay max_delay n : ℕ) (rest : List Attempt)
    → reconnect_with_backoff (some delay) max_delay (replicate n fails ++ connects ∷ rest) ≡ (
      waits_from
          (or_default default_max_reconnect_delay max_delay)
          (or_default default_reconnect_delay delay)
          0
          n,
      some true,
    )
unfolding reconnect_with_backoff
reconnect_with_backoff_lem delay max_delay n rest =
    retry-waits_from (or_default default_max_reconnect_delay max_delay)
      (or_default default_reconnect_delay delay) 0 n rest
