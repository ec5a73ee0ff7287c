-- ===== src/Sdk/Owed.antt =====
-- What the client of sdk/go owes a channel of its callers: the results that stand on it, and those
-- that a waiter or a peer may still put there.
use relayly.Base.{
  ℕ, ◌+◌, ◌≤◌, ◌≡◌, refl, String, Option, none, some, List, [], ◌∷◌, ◌++◌, map, arith, lookup,
  insert, erase, lookup-insert, ◌==◌, nat_eq, string_eq, eq_iff, if◌then◌else◌, Option-cases, inl,
  inr,
}
use relayly.Sdk.Noise.{NoiseLib}
use relayly.Sdk.Peer.{PeerConn}
use relayly.Sdk.Frames.{with_waiter}
use relayly.Sdk.Client.{Client, Base64, PairResult, PairWaiter, Message, set_peer_conn, tell_waiter}

-- The sum over the entries of a map.
abbrev total : {V : Type 0} → (V → ℕ) → List (String × V) → ℕ
total f [] = 0
total f ((k, v) ∷ m) = f v + total f m

abbrev pub at_key : {V : Type 0} → (V → ℕ) → String → List (String × V) → ℕ
at_key f key m = elim (lookup key m) [ none ↦ 0 | some v ↦ f v ]

total-erase :
    {V : Type 0} (f : V → ℕ) (key : String) (m : List (String × V))
    → total f (erase key m) + at_key f key m ≤ total f m
unfolding erase lookup
total-erase f key [] = omega arith
total-erase f key ((k, v) ∷ m) = ground (arith, total-erase f key m)

total-insert :
    {V : Type 0} (f : V → ℕ) (key : String) (v : V) (m : List (String × V))
    → total f (insert key v m) + at_key f key m ≡ total f m + f v
unfolding insert lookup
total-insert f key v [] = omega arith
total-insert f key v ((k, w) ∷ m) = ground (arith, total-insert f key v m)

module _ (ch : ℕ) where
  abbrev pub one : Option ℕ → ℕ
  one none = 0
  one (some k) = if k == ch then 1 else 0

  abbrev pub of_waiter : PairWaiter → ℕ
  of_waiter w = one (some w.channel)

  abbrev pub told : List (ℕ × PairResult) → ℕ
  told [] = 0
  told ((k, r) ∷ rs) = one (some k) + told rs

  told-append : (rs ss : List (ℕ × PairResult)) → told (rs ++ ss) ≡ told rs + told ss
  told-append [] ss = omega arith
  told-append ((k, r) ∷ rs) ss = omega (arith, told-append rs ss)

  told-all :
      (r : PairResult) (ws : List (String × PairWaiter))
      → told (map (λ e. (e.1.channel, r)) ws) ≡ total of_waiter ws
  told-all r [] = refl
  told-all r ((k, w) ∷ ws) = omega (arith, told-all r ws)

  module _ (lib : NoiseLib) (base64 : Base64) where
    abbrev pub of_peer : PeerConn lib → ℕ
    of_peer p = one p.first_pair_waiter

    unfoldable pub owed : Client lib base64 → ℕ
    owed c = total of_waiter c.pair_waiters + total of_peer c.peers + told c.results

    -- The waiter of a peer that is put into the map counts, and that of the peer before it no more.
    pub set_peer-le :
        (key : String) (p : PeerConn lib) (c : Client lib base64)
        → owed (set_peer_conn lib base64 key p c) ≤ owed c + of_peer p
    unfolding owed
    set_peer-le key p c = omega (arith, total-insert of_peer key p c.peers)

    pub set_peer-same :
        (key : String) (p : PeerConn lib) (c : Client lib base64)
        → at_key of_peer key c.peers ≡ of_peer p
        → owed (set_peer_conn lib base64 key p c) ≡ owed c
    unfolding owed
    set_peer-same key p c h = omega (arith, h, total-insert of_peer key p c.peers)

    pub set_peer-at :
        (key : String) (p : PeerConn lib) (c : Client lib base64)
        → at_key of_peer key (set_peer_conn lib base64 key p c).peers ≡ of_peer p
    set_peer-at key p c = ground (arith, lookup-insert key key p c.peers, eq_iff key key)

    pub tell_waiter-owed :
        (key : String) (r : PairResult) (p : PeerConn lib) (c : Client lib base64)
        → at_key of_peer key c.peers ≡ of_peer p
        → owed (tell_waiter lib base64 key r p c) ≤ owed c
    unfolding owed tell_waiter
    tell_waiter-owed key r p c h =
        let q : PeerConn lib = record p { first_pair_waiter = none } in
        elim (Option-cases p.first_pair_waiter) [
          | inl e ↦ ground (arith, total-insert of_peer key q c.peers)
          | inr (k, e) ↦
              ground
                (arith, total-insert of_peer key q c.peers, told-append c.results ((k, r) ∷ []))
        ]

    pub with_waiter-owed :
        (key : String) (f : PairWaiter → Client lib base64 → Client lib base64)
        (c : Client lib base64)
        → ((w : PairWaiter) (d : Client lib base64) → owed (f w d) ≤ owed d + of_waiter w)
        → owed (with_waiter lib base64 key f c) ≤ owed c
    unfolding owed with_waiter
    with_waiter-owed key f c h = elim (Option-cases (lookup key c.pair_waiters)) [
      | inl e ↦ ground arith
      | inr (w, e) ↦
          let d : Client lib base64 = record c { pair_waiters = erase key c.pair_waiters } in
          ground (arith, total-erase of_waiter key c.pair_waiters, h w d)
    ]

    -- A waiter that has its result is owed no more.
    pub answered-owed :
        (w : PairWaiter) (r : PairResult) (c : Client lib base64)
        → owed (record c { results = c.results ++ (w.channel, r) ∷ [] }) ≤ owed c + of_waiter w
    unfolding owed
    answered-owed w r c = omega (arith, told-append c.results ((w.channel, r) ∷ []))

    pub answered_all-owed :
        (r : PairResult) (c : Client lib base64)
        → owed (record c {
          results = c.results ++ map (λ e. (e.1.channel, r)) c.pair_waiters;
          pair_waiters = [];
        })
          ≤ owed c
    unfolding owed
    answered_all-owed r c = omega (
      arith,
      told-append c.results (map (λ e. (e.1.channel, r)) c.pair_waiters),
      told-all r c.pair_waiters,
    )

    pub waits-owed :
        (key : String) (w : PairWaiter) (c : Client lib base64)
        → owed (record c { pair_waiters = insert key w c.pair_waiters }) ≤ owed c + of_waiter w
    unfolding owed
    waits-owed key w c = omega (arith, total-insert of_waiter key w c.pair_waiters)

    pub gives_up-owed :
        (key : String) (c : Client lib base64)
        → owed (record c { pair_waiters = erase key c.pair_waiters }) ≤ owed c
    unfolding owed
    gives_up-owed key c = omega (arith, total-erase of_waiter key c.pair_waiters)

    pub told-le : (c : Client lib base64) → told c.results ≤ owed c
    unfolding owed
    told-le c = omega arith

    pub takes-owed :
        (messages : List Message) (c : Client lib base64)
        → owed (record c { messages = messages }) ≡ owed c
    unfolding owed
    takes-owed messages c = refl
