-- ===== src/Examples/Chat.antt =====
-- examples/go/chat/main.go after its connection: the pairing and the loop over the lines that are
-- typed. `trim`, `equal_fold` and `bytes` are `strings.TrimSpace`, `strings.EqualFold` and the
-- conversion to bytes; the calls of the client are cut as in `Sdk.Calls`.
use relayly.Base.{
  ℕ, ◌≡◌, refl, String, Bool, true, false, not, List, [], ◌∷◌, ◌++◌, arith, Result, ok, err, ◌==◌,
  string_eq, if◌then◌else◌, Bool-cases, inl, inr,
}
use relayly.Sdk.Noise.{NoiseLib}
use relayly.Sdk.Client.{Client, Base64, ClientError, PairResult}
use relayly.Sdk.Frames.{send_message}
use relayly.Sdk.Calls.{
  Select, CallError, PairCode, Peer, wait, request_pair_code_begin, request_pair_code_end,
  accept_pair_begin, accept_pair_end,
}

-- What is shown in the loop; what a message is shown as is left out.
pub data Shown : Type 0 where
  prompt goodbye send_error : Shown

module _ (lib : NoiseLib) (base64 : Base64) where
  abbrev State : Type 0
  State = Client lib base64

  abbrev wait_for :
      Select PairResult → Result CallError PairCode × State → Result CallError Peer × State
  wait_for waits (ok code, c) = (wait waits, c)
  wait_for waits (err e, c) = (err e, c)

  -- The peer: with `--code` that of the code, else the one that takes the code that is shown.
  -- `meanwhile` is what the client's other goroutines do across a wait.
  unfoldable pub meet :
      String
      → ℕ
      → Select (Unit {0})
      → (State → State)
      → Select PairResult
      → Select PairResult
      → State
      → Result CallError Peer × State
  meet code channel sends meanwhile issued waits c =
      let r =
        if not (code == "")
        then accept_pair_begin lib base64 channel code sends c
        else request_pair_code_begin lib base64 channel sends c in
      elim r.0 [
        | err e ↦ (err e, r.1)
        | ok frame ↦
            if not (code == "")
            then accept_pair_end lib base64 code waits (meanwhile r.1)
            else wait_for waits (request_pair_code_end lib base64 channel issued (meanwhile r.1))
      ]

  abbrev after_send : State × Result ClientError (Unit {0}) → List Shown × State
  after_send (c, ok u) = (prompt ∷ [], c)
  after_send (c, err e) = (send_error ∷ prompt ∷ [], c)

  module _ (trim : String → String) (equal_fold : String → String → Bool) (bytes : String → List ℕ)
      (peer : Peer) where
    abbrev send : String → State → List Shown × State
    send line c = after_send (send_message lib base64 peer.id (bytes line) c)

    -- The loop over the scanner's lines; `true` says that it was left by `/quit`.
    unfoldable pub chat : List String → State → (List Shown × Bool) × State
    chat [] c = (([], false), c)
    chat (typed ∷ lines) c =
        let line = trim typed in
        let skipped = chat lines c in
        let sent = send line c in
        let rest = chat lines sent.1 in
        if line == ""
        then ((prompt ∷ skipped.0.0, skipped.0.1), skipped.1)
        else if equal_fold line "/quit"
        then ((goodbye ∷ [], true), c)
        else ((sent.0 ++ rest.0.0, rest.0.1), rest.1)

    -- The messages in what is typed: the trimmed lines before `/quit` that are not empty.
    unfoldable pub said : List String → List String
    said [] = []
    said (typed ∷ lines) =
        let line = trim typed in
        let rest = said lines in
        if line == "" then rest else if equal_fold line "/quit" then [] else line ∷ rest

    -- The client after sending messages, whether or not each was sent.
    unfoldable pub sends : List String → State → State
    sends [] c = c
    sends (m ∷ ms) c = sends ms (send_message lib base64 peer.id (bytes m) c).0

    send-state :
        (line : String) (c : State)
        → (send line c).1 ≡ (send_message lib base64 peer.id (bytes line) c).0
    send-state line c = ground arith

    -- The loop sends what was said, each message once and in order: a message that cannot be sent
    -- is told and is not tried again, and the loop goes on with the next.
    pub chat-sends : (lines : List String) (c : State) → (chat lines c).1 ≡ sends (said lines) c
    unfolding chat said sends
    chat-sends [] c = refl
    chat-sends (typed ∷ lines) c = elim (Bool-cases (trim typed == "")) [
      | inl e ↦ ground (arith, chat-sends lines c)
      | inr e ↦ elim (Bool-cases (equal_fold (trim typed) "/quit")) [
        | inl f ↦ ground arith
        | inr f ↦ ground (
          arith,
          send-state (trim typed) c,
          chat-sends lines (send_message lib base64 peer.id (bytes (trim typed)) c).0,
        )
      ]
    ]
