-- ===== src/Interop/Waiting.antt =====
-- Waiting for events out of order (interop/harness/instance.go).
use relayly.Base.{
  ◌≡◌, refl, Bool, Option, none, some, List, [], ◌∷◌, ◌++◌, append_assoc, arith, Option-cases,
  Bool-cases, inl, inr,
}
use relayly.Interop.{Instance, take_first, read_until, wait_for}

module _ {Event : Type 0} (fits : Event → Bool) where
  -- All that the instance has, in the order of its arrival.
  abbrev pub events : Instance Event → List Event
  events i = i.backlog ++ i.raw

  abbrev found : Option (Event × List Event) → Option Event
  found none = none
  found (some r) = some r.0

  abbrev left : List Event → Option (Event × List Event) → List Event
  left es none = es
  left es (some r) = r.1

  take_first-append :
      (xs ys : List Event)
      → take_first fits xs ≡ none
      → (found (take_first fits (xs ++ ys)) ≡ found (take_first fits ys))
        × (left (xs ++ ys) (take_first fits (xs ++ ys)) ≡ xs ++ left ys (take_first fits ys))
  unfolding take_first
  take_first-append [] ys h = (refl, refl)
  take_first-append (x ∷ xs) ys h = ground (arith, take_first-append xs ys)

  take_first-some :
      (xs ys : List Event) (r : Event × List Event)
      → take_first fits xs ≡ some r
      → take_first fits (xs ++ ys) ≡ some (r.0, r.1 ++ ys)
  unfolding take_first
  take_first-some [] ys r h = absurd (ground arith)
  take_first-some (x ∷ xs) ys r h = elim (Bool-cases (fits x)) [
    | inl e ↦ ground arith
    | inr e ↦ elim (Option-cases (take_first fits xs)) [
      | inl f ↦ absurd (ground arith)
      | inr (q, f) ↦ ground (arith, take_first-some xs ys q f)
    ]
  ]

  read_until-takes :
      (backlog raw : List Event)
      → ((read_until fits backlog raw).0 ≡ found (take_first fits raw))
        × (events (read_until fits backlog raw).1 ≡ backlog ++ left raw (take_first fits raw))
  unfolding read_until take_first
  read_until-takes backlog [] = (refl, refl)
  read_until-takes backlog (e ∷ es) = ground (
    arith,
    read_until-takes (backlog ++ e ∷ []) es,
    append_assoc backlog (e ∷ []) es,
    append_assoc backlog (e ∷ []) (left es (take_first fits es)),
  )

  -- `WaitFor` yields the first event that fits of all that have come or come before the deadline,
  -- and keeps all others in their order.
  pub wait_for_lem :
      (i : Instance Event)
      → ((wait_for fits i).0 ≡ found (take_first fits (events i)))
        × (events (wait_for fits i).1 ≡ left (events i) (take_first fits (events i)))
  unfolding wait_for
  wait_for_lem i = elim (Option-cases (take_first fits i.backlog)) [
    | inl e ↦ ground (arith, take_first-append i.backlog i.raw e, read_until-takes i.backlog i.raw)
    | inr (r, e) ↦ ground (arith, take_first-some i.backlog i.raw r e)
  ]
