-- ===== src/PairCodes/Tests.antt =====
-- Instances of the theorems about internal/relay/paircodes.go.
use relayly.Base.{◌≡◌, ap, true, false, [], ◌∷◌, arith, eq_iff}
use relayly.PairCodes.{new_pair_code_registry, put, take}
use relayly.PairCodes.SingleUse.{puts, takes, runs, take-put, take-once}

take-put_example : (take 301 "048392" (put 1 "048392" "a" 300 new_pair_code_registry)).ok ≡ true
take-put_example = (take-put 1 301 300 "048392" "a" "000000" new_pair_code_registry).0

take-once_example :
    (take 9 "048392" (
      runs
        (puts 6 "000000" "b" 300 ∷ takes 7 "048392" ∷ [])
        (take 5 "048392" (put 1 "048392" "a" 300 new_pair_code_registry)).registry)).ok
    ≡ false
take-once_example =
    ap (λ t. t.ok)
      (take-once 5 9 "048392" (puts 6 "000000" "b" 300 ∷ takes 7 "048392" ∷ [])
        (put 1 "048392" "a" 300 new_pair_code_registry)
        (ground (arith, eq_iff "000000" "048392"), (tt, tt)))
