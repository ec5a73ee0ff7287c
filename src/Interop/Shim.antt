-- ===== src/Interop/Shim.antt =====
-- interop/clients/go/main.go: what the Go client under test answers to its commands. Each call of
-- the client is cut as in `Sdk.Calls`; `meanwhile` is what its other goroutines do across a wait.
use relayly.Base.{
  ◌≡◌, ℕ, String, none, some, List, [], ◌∷◌, arith, Result, ok, err, lookup, string_eq, eq_iff,
}
use relayly.Sdk.Noise.{NoiseLib}
use relayly.Sdk.Client.{Client, Base64, ClientError, PairResult, Message}
use relayly.Sdk.Frames.{send_message}
use relayly.Sdk.KeyFiles.{Base64Laws}
use relayly.Sdk.Calls.{
  Select, CallError, PairCode, Peer, wait, request_pair_code_begin, request_pair_code_end,
  accept_pair_begin, accept_pair_end,
}
use relayly.Interop.{fill_bytes}
use relayly.Interop.Script.{Event, str, type}
use relayly.Interop.Verdicts.{Carries}

abbrev event : String → List (String × String) → Event
event name texts = record { texts = ("event", name) ∷ texts; flags = [] }

abbrev pub pair_error : Event
pair_error = event "pair_error" []

-- The message of an error, and `expires_in`, are left out.
abbrev pub pair_code : PairCode → Event
pair_code code = event "pair_code" (("code", code.short) ∷ [])

module _ (lib : NoiseLib) (base64 : Base64) where
  abbrev State : Type 0
  State = Client lib base64

  abbrev pub paired : Peer → Event
  paired p =
      event "paired" (("peer_id", p.id) ∷ ("peer_public_key_b64", base64.encode p.public_key) ∷ [])

  abbrev emits_peer : Result CallError Peer → List Event
  emits_peer (ok p) = paired p ∷ []
  emits_peer (err e) = pair_error ∷ []

  abbrev then_wait : Select PairResult → Result CallError PairCode × State → List Event × State
  then_wait waits (ok code, c) = (pair_code code ∷ emits_peer (wait waits), c)
  then_wait waits (err e, c) = (pair_error ∷ [], c)

  -- `request_pair_code`: the channel of the call, what its two `select`s and `Wait` pick.
  unfoldable pub request_pair_code :
      ℕ
      → Select (Unit {0})
      → (State → State)
      → Select PairResult
      → Select PairResult
      → State
      → List Event × State
  request_pair_code channel sends meanwhile issued waits c =
      let r = request_pair_code_begin lib base64 channel sends c in
      elim r.0 [
        | err e ↦ (pair_error ∷ [], r.1)
        | ok frame ↦
            then_wait waits (request_pair_code_end lib base64 channel issued (meanwhile r.1))
      ]

  -- `accept_pair`
  unfoldable pub accept_pair :
      ℕ
      → String
      → Select (Unit {0})
      → (State → State)
      → Select PairResult
      → State
      → List Event × State
  accept_pair channel code sends meanwhile waits c =
      let r = accept_pair_begin lib base64 channel code sends c in
      elim r.0 [
        | err e ↦ (pair_error ∷ [], r.1)
        | ok frame ↦
            let s = accept_pair_end lib base64 code waits (meanwhile r.1) in (emits_peer s.0, s.1)
      ]

  abbrev emits_sent : State × Result ClientError (Unit {0}) → List Event × State
  emits_sent (c, ok u) = (event "sent" [] ∷ [], c)
  emits_sent (c, err e) = (event "send_error" [] ∷ [], c)

  -- `send`, whose payload is decoded first.
  unfoldable pub send : String → String → State → List Event × State
  send peer_id payload c = elim (base64.decode payload) [
    | none ↦ (event "send_error" [] ∷ [], c)
    | some bytes ↦ emits_sent (send_message lib base64 peer_id bytes c)
  ]

  -- The goroutine that reads `client.Messages()`.
  unfoldable pub message_event : Message → Event
  message_event m =
      event "message" (("from", m.sender) ∷ ("payload_b64", base64.encode m.payload) ∷ [])

  -- What the harness takes for the message of a roundtrip is what this client prints of it.
  pub message_event-Carries :
      (m : Message) (n : ℕ)
      → Base64Laws base64
      → m.payload ≡ fill_bytes n
      → Carries base64 m.sender n (message_event m)
  unfolding message_event str type lookup
  message_event-Carries m n laws h =
      (ground (arith, eq_iff m.sender m.sender), ground (arith, laws.decodes m.payload))
