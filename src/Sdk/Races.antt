-- ===== src/Sdk/Races.antt =====
-- `RequestPairCode` against readLoop (sdk/go/client.go): the code's waiter is registered by the
-- caller after readLoop has handed it the code.
use relayly.Base.{
  ℕ, false, string_eq, ◌≡◌, none, some, arith, lookup, erase, lookup-insert, lookup-erase, eq_iff,
}
use relayly.Relay.Client.{ControlMessage}
use relayly.Sdk.Noise.{NoiseLib}
use relayly.Sdk.Client.{Client, Base64, PairResult, PairWaiter}
use relayly.Sdk.Frames.{handle_pair_code, handle_pair_complete, with_waiter}
use relayly.Sdk.Calls.{picks, request_key, request_pair_code_end}

module _ (lib : NoiseLib) (base64 : Base64) where
  -- If the other device's `pair_complete` is read between the code and the caller's next step, no
  -- peer is registered, and the waiter that the caller then registers stays.
  pub pair_complete_early :
      (c : Client lib base64) (w : PairWaiter) (issued complete : ControlMessage) (r : PairResult)
      (random channel : ℕ)
      → lookup request_key c.pair_waiters ≡ some w
      → lookup issued.code c.pair_waiters ≡ none
      → complete.code ≡ issued.code
      → r.code ≡ issued.code
      → r.error ≡ none
      → let read =
          handle_pair_complete lib base64 random complete (handle_pair_code lib base64 issued c) in
        let after = (request_pair_code_end lib base64 channel (picks r) read).1 in
        (after.peers ≡ c.peers)
        × (lookup issued.code after.pair_waiters
            ≡ some (record { channel = channel; we_are_acceptor = false }))
  unfolding handle_pair_code handle_pair_complete with_waiter request_pair_code_end
  pair_complete_early c w issued complete r random channel waiting fresh same given fine =
      let waiters = erase request_key c.pair_waiters in
      let w' : PairWaiter = record { channel = channel; we_are_acceptor = false } in
      ground (
        arith,
        lookup-erase request_key issued.code c.pair_waiters,
        lookup-insert issued.code issued.code w' waiters,
        eq_iff issued.code issued.code,
      )
