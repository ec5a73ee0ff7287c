-- ===== src/Sdk/Calls.antt =====
-- sdk/go/client.go and pairing.go: the calls `RequestPairCode`, `AcceptPair` and `Wait`, each cut
-- at its `select` statements, whose outcome is an argument.
use relayly.Base.{
  ℕ, String, true, false, none, some, List, Result, ok, err, insert, erase, string_eq,
}
use relayly.Relay.Client.{ControlMessage, blank}
use relayly.Sdk.Noise.{NoiseLib}
use relayly.Sdk.Client.{Client, Base64, ClientError, PairResult, PairWaiter, remove_pair_waiter}

-- What a `select` picks: the channel of the call, the context's end, or the client's end.
pub data Select (A : Type 0) : Type 0 where
  picks : A → Select A
  context_done client_done : Select A

pub data CallError : Type 0 where
  cancelled client_closed : CallError
  refused : ClientError → CallError

-- A code with the channel on which `Wait` waits.
pub record PairCode : Type 0 where
  pub short : String
  pub expires_in : ℕ
  pub channel : ℕ

pub record Peer : Type 0 where
  pub id : String
  pub public_key : List ℕ

abbrev pub request_key : String
request_key = "__request__"

abbrev paired : PairResult → Result CallError Peer
paired r = elim r.error [
  | none ↦ ok (record { id = r.peer_id; public_key = r.peer_public_key })
  | some e ↦ err (refused e)
]

unfoldable pub wait : Select PairResult → Result CallError Peer
wait (picks r) = paired r
wait context_done = err cancelled
wait client_done = err client_closed

module _ (lib : NoiseLib) (base64 : Base64) where
  abbrev State : Type 0
  State = Client lib base64

  -- A waiter is registered, and the frame goes on the channel, or the call ends.
  abbrev begin :
      String
      → PairWaiter
      → ControlMessage
      → Select (Unit {0})
      → State
      → Result CallError ControlMessage × State
  begin key w frame (picks u) c =
      (ok frame, record c { pair_waiters = insert key w c.pair_waiters })
  begin key w frame context_done c =
      (err cancelled, record c { pair_waiters = erase key (insert key w c.pair_waiters) })
  begin key w frame client_done c =
      (err client_closed, record c { pair_waiters = erase key (insert key w c.pair_waiters) })

  unfoldable pub request_pair_code_begin :
      ℕ → Select (Unit {0}) → State → Result CallError ControlMessage × State
  request_pair_code_begin channel =
      begin request_key (record { channel = channel; we_are_acceptor = false })
        (record blank { type = "pair_request" })

  -- The code's waiter takes the place of the request's.
  unfoldable pub request_pair_code_end :
      ℕ → Select PairResult → State → Result CallError PairCode × State
  request_pair_code_end channel (picks r) c = elim r.error [
    | some e ↦ (err (refused e), c)
    | none ↦ (
      ok (record { short = r.code; expires_in = r.expires_in; channel = channel }),
      record c {
        pair_waiters =
            insert r.code (record { channel = channel; we_are_acceptor = false }) c.pair_waiters;
      },
    )
  ]
  request_pair_code_end channel context_done c =
      (err cancelled, remove_pair_waiter lib base64 request_key c)
  request_pair_code_end channel client_done c =
      (err client_closed, remove_pair_waiter lib base64 request_key c)

  unfoldable pub accept_pair_begin :
      ℕ → String → Select (Unit {0}) → State → Result CallError ControlMessage × State
  accept_pair_begin channel code =
      begin code (record { channel = channel; we_are_acceptor = true })
        (record blank { type = "pair_accept"; code = code })

  unfoldable pub accept_pair_end :
      String → Select PairResult → State → Result CallError Peer × State
  accept_pair_end code (picks r) c = (paired r, c)
  accept_pair_end code context_done c = (err cancelled, remove_pair_waiter lib base64 code c)
  accept_pair_end code client_done c = (err client_closed, remove_pair_waiter lib base64 code c)
