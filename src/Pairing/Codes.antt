-- ===== src/Pairing/Codes.antt =====
-- The six digits of `GeneratePairingCode` (internal/pairing/pairing.go).
use mathlib.Core.List.{foldl}
use relayly.Base.{ℕ, ◌+◌, ◌*◌, ◌-◌, ◌%◌, ◌≤◌, ◌<◌, ◌≡◌, refl, List, arith, All, length}
use relayly.Pairing.{big_endian, six_digits, generate_pairing_code}

-- The number that decimal digits stand for.
unfoldable pub decimal : List ℕ → ℕ
decimal = foldl (λ n c. n * 10 + (c - b'0')) 0

decimal-six_digits : (n : ℕ) → n < 1_000_000 → decimal (six_digits n) ≡ n
unfolding decimal six_digits
decimal-six_digits n h = omega arith

-- Whatever the random bytes, the code has six characters, each a digit, and stands for the random
-- number modulo a million, leading zeros included.
pub generate_pairing_code_lem :
    (random : List ℕ)
    → (length (generate_pairing_code random) ≡ 6)
      × All (λ c. (b'0' ≤ c) × (c ≤ b'9')) (generate_pairing_code random)
      × (decimal (generate_pairing_code random) ≡ big_endian random % 1_000_000)
unfolding generate_pairing_code six_digits
generate_pairing_code_lem random =
    (refl, omega arith, decimal-six_digits (big_endian random % 1_000_000) (omega arith))
