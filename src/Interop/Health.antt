-- ===== src/Interop/Health.antt =====
-- interop/harness/server.go: the wait for the server that the harness has started. Times are in
-- milliseconds; `answers` has the status of a GET of /health that is sent at a time, where the server
-- answers, and `takes` how long that GET takes.
use relayly.Base.{
  ℕ, zero, suc, ◌+◌, ◌*◌, ◌≤◌, ◌<◌, ◌≡◌, Bool, true, false, Option, none, some, arith, ap, ltb,
  ltb→lt, lt→ltb, is_some, ◌==◌, nat_eq, Bool-cases, inl, inr, if◌then◌else◌,
}

abbrev pub answers_ok : Option ℕ → Bool
answers_ok none = false
answers_ok (some code) = code == 200

-- `waitForHealth`, whose loop has fuel; `none` says that the fuel did not do.
unfoldable pub wait_for_health : (ℕ → Option ℕ) → (ℕ → ℕ) → ℕ → ℕ → ℕ → Option Bool
wait_for_health answers takes zero now deadline = none
wait_for_health answers takes (suc fuel) now deadline =
    let later = wait_for_health answers takes fuel (now + takes now + 50) deadline in
    if ltb now deadline then (if answers_ok (answers now) then some true else later) else some false

abbrev is_true : Option Bool → Bool
is_true none = false
is_true (some b) = b

-- The call in `startServer`, up to ten seconds.
unfoldable pub healthy : (ℕ → Option ℕ) → (ℕ → ℕ) → Bool
healthy answers takes = is_true (wait_for_health answers takes 201 0 10000)

-- The loop ends: one turn for each 50 ms up to the deadline, and one more, are enough.
pub wait_for_health-ends :
    (answers : ℕ → Option ℕ) (takes : ℕ → ℕ) (n now deadline : ℕ)
    → deadline ≤ now + 50 * n
    → is_some (wait_for_health answers takes (suc n) now deadline) ≡ true
unfolding wait_for_health
wait_for_health-ends answers takes zero now deadline h = ground arith
wait_for_health-ends answers takes (suc n) now deadline h =
    ground
      (arith, wait_for_health-ends answers takes n (now + takes now + 50) deadline (omega arith))

-- The server is taken for healthy only if it has answered 200 to a GET of before the deadline.
pub wait_for_health-answered :
    (answers : ℕ → Option ℕ) (takes : ℕ → ℕ) (fuel now deadline : ℕ)
    → wait_for_health answers takes fuel now deadline ≡ some true
    → (t : ℕ) × (now ≤ t) × (t < deadline) × (answers_ok (answers t) ≡ true)
unfolding wait_for_health
wait_for_health-answered answers takes zero now deadline h = absurd (ground arith)
wait_for_health-answered answers takes (suc fuel) now deadline h =
    elim (Bool-cases (ltb now deadline)) [
      | inr late ↦ absurd (ground arith)
      | inl soon ↦ elim (Bool-cases (answers_ok (answers now))) [
        | inl up ↦ (now, omega arith, ltb→lt now deadline soon, up)
        | inr down ↦
            let (t, after, before, up) =
              wait_for_health-answered answers takes fuel (now + takes now + 50) deadline
                (ground arith) in
            (t, omega arith, before, up)
      ]
    ]

-- A server that answers 200 from some time on is found, if no GET takes longer than `longest` and
-- that time is `longest` and 50 ms before the deadline, in as many turns as end the loop.
pub wait_for_health-finds :
    (answers : ℕ → Option ℕ) (takes : ℕ → ℕ) (n now deadline up longest : ℕ)
    → ((t : ℕ) → up ≤ t → answers_ok (answers t) ≡ true)
    → ((t : ℕ) → takes t ≤ longest)
    → now < deadline
    → up + longest + 50 ≤ deadline
    → deadline ≤ now + 50 * n
    → wait_for_health answers takes (suc n) now deadline ≡ some true
unfolding wait_for_health
wait_for_health-finds answers takes zero now deadline up longest runs quick soon room turns =
    absurd (omega arith)
wait_for_health-finds answers takes (suc n) now deadline up longest runs quick soon room turns =
    elim (Bool-cases (answers_ok (answers now))) [
      | inl e ↦ ground (arith, lt→ltb now deadline soon)
      | inr e ↦
          let early : now < up = ground (arith, runs now) in
          ground (
            arith,
            lt→ltb now deadline soon,
            quick now,
            wait_for_health-finds answers takes n (now + takes now + 50) deadline up longest runs
                quick,
          )
    ]

-- `startServer` goes on with a server that answers 200 from some time on that is the longest GET and
-- 50 ms before the ten seconds are up.
pub healthy_up :
    (answers : ℕ → Option ℕ) (takes : ℕ → ℕ) (up longest : ℕ)
    → ((t : ℕ) → up ≤ t → answers_ok (answers t) ≡ true)
    → ((t : ℕ) → takes t ≤ longest)
    → up + longest + 50 ≤ 10000
    → healthy answers takes ≡ true
unfolding healthy
healthy_up answers takes up longest runs quick room = ap is_true (
    wait_for_health-finds answers takes 200 0 10000 up longest runs quick (omega arith) room
      (omega arith))
