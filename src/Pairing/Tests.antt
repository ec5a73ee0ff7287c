-- ===== src/Pairing/Tests.antt =====
-- Tokens and codes of internal/pairing/pairing.go from given bytes, and instances of the theorems.
use relayly.Base.{◌≡◌, ◌≢◌, ◌++◌, arith}
use relayly.Pairing.{base58_encode}
use relayly.Pairing.Collisions.{chunk, base58_encode_collides}

base58_encode_collides_example :
    (base58_encode (chunk 1 ++ chunk 1) ≡ base58_encode (chunk 59 ++ chunk 0))
    × (chunk 1 ++ chunk 1 ≢ chunk 59 ++ chunk 0)
base58_encode_collides_example =
    base58_encode_collides 1 1 (omega arith) (omega arith) (omega arith) (omega arith)
