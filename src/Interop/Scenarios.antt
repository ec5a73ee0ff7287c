-- ===== src/Interop/Scenarios.antt =====
-- interop/harness/scenarios.go: the four scenarios that a pair of clients under test runs through.
use Prim.Native.String.{len}
use relayly.Base.{
  ℕ, zero, suc, ◌+◌, ◌-◌, String, Bool, true, false, not, ◌&&◌, none, some, List, [], ◌∷◌, ok, err,
  length, lookup, ◌==◌, string_eq, nat_eq, if◌then◌else◌,
}
use relayly.Sdk.Client.{Base64}
use relayly.Sdk.Frames.{before}
use relayly.Interop.{fill_bytes, sever_connection, rewrite_next_pair_complete}
use relayly.Interop.Script.{
  Event, str, bool, is_type, request_pair_code, accept_pair, send, Side, side_a, side_b,
  DeviceCreds, PinFile, Script, ◌>>=◌, ◌>>◌, done, return, fail, check, granted, head_or, tail,
  register_device, send_command, await, with_instance,
}

abbrev pub max_message_bytes : ℕ
max_message_bytes = 65_536

abbrev pub noise_envelope_overhead : ℕ
noise_envelope_overhead = 1 + 16

unfoldable pub same_bytes : List ℕ → List ℕ → Bool
same_bytes [] [] = true
same_bytes (x ∷ xs) (y ∷ ys) = let rest = same_bytes xs ys in x == y && rest
same_bytes xs ys = false

-- The events that the scenarios wait for.
abbrev pub is_message : String → Event → Bool
is_message sender e = is_type "message" e && str e "from" == sender

abbrev pub is_ready : String → Event → Bool
is_ready peer e = is_type "ready_signal" e && str e "peer_id" == peer

abbrev pub is_status : String → Bool → Event → Bool
is_status peer online e =
    is_type "peer_status" e
    && (str e "peer_id" == peer && (if online then bool e "online" else not (bool e "online")))

unfoldable pub sever : String → Script (Unit {0})
sever id w = (ok tt, record w { proxy = sever_connection id w.proxy })

unfoldable pub rewrite : String → String → Script (Unit {0})
rewrite id fake w = (ok tt, record w { proxy = rewrite_next_pair_complete id fake w.proxy })

-- `os.WriteFile` of the seeded peer store.
unfoldable pub seed_pin_file : Script (Unit {0})
seed_pin_file w =
    if head_or true w.writes
    then (ok tt, record w { writes = tail w.writes })
    else (err "seeding", record w { writes = tail w.writes })

-- `readPinFile`
unfoldable pub read_pin_file : Script PinFile
read_pin_file w =
    granted "reading peer store" (head_or none w.pin_files)
      (record w { pin_files = tail w.pin_files })

-- `m[id].StaticKey`, empty for an id that is not there.
abbrev pub pin_of : String → PinFile → String
pin_of id pins = elim (lookup id pins) [ none ↦ "" | some entry ↦ entry.static_key ]

abbrev pub awaits : Side → (Event → Bool) → Script (Unit {0})
awaits side fits = do await side fits; done

unfoldable pub assert_pin_matches : String → String → Script (Unit {0})
assert_pin_matches peer_id want = do
  pins ← read_pin_file
  entry ← granted "no pin recorded" (lookup peer_id pins)
  check (entry.static_key == want) "pinned key does not match"

-- Devices are registered by two until the second has the smaller id, ten times at most.
unfoldable pub register_ordered : ℕ → Script (DeviceCreds × DeviceCreds)
register_ordered zero = fail "could not obtain a smaller partner device_id"
register_ordered (suc attempts) =
    let again = register_ordered attempts in
    (do
      victim ← register_device
      partner ← register_device
      if before partner.device_id victim.device_id then return (victim, partner) else again)

module _ (base64 : Base64) where
  -- The message that has arrived against the one that was sent.
  unfoldable pub read_payload : List ℕ → Event → Script (Unit {0})
  read_payload payload e = do
    got ← granted "decoding received payload" (base64.decode (str e "payload_b64"))
    check (length got == length payload) "payload length mismatch"
    check (same_bytes got payload) "payload mismatch"

  unfoldable pub roundtrip : Side → Side → String → String → ℕ → Script (Unit {0})
  roundtrip sender receiver sender_id receiver_id n = do
    send_command sender (send receiver_id (base64.encode (fill_bytes n)))
    e ← await receiver (is_message sender_id)
    read_payload (fill_bytes n) e

  -- A message of each size, there and back.
  unfoldable pub roundtrips : String → String → List ℕ → Script (Unit {0})
  roundtrips id_a id_b [] = done
  roundtrips id_a id_b (n ∷ sizes) =
      let rest = roundtrips id_a id_b sizes in
      roundtrip side_a side_b id_a id_b n >> (roundtrip side_b side_a id_b id_a n >> rest)

  -- `code` is asked of one side and redeemed by the other.
  unfoldable pub exchange_code : Side → Side → Script Event
  exchange_code from to = do
    send_command from request_pair_code
    e ← await from (is_type "pair_code")
    send_command to (accept_pair (str e "code"))
    return e

  -- The start of `runPositiveFlow`, where the code must have six digits.
  unfoldable pub exchange_six_digits : Script (Unit {0})
  exchange_six_digits = do
    send_command side_a request_pair_code
    e ← await side_a (is_type "pair_code")
    check (len (str e "code") == 6) "expected 6-digit code"
    send_command side_b (accept_pair (str e "code"))

  unfoldable pub confirm_pairing : String → String → Script (Unit {0})
  confirm_pairing id_a id_b = do
    paired_b ← await side_b (is_type "paired")
    paired_a ← await side_a (is_type "paired")
    check (str paired_a "peer_id" == id_b) "A paired with another"
    check (str paired_b "peer_id" == id_a) "B paired with another"
    assert_pin_matches id_b (str paired_a "peer_public_key_b64")
    assert_pin_matches id_a (str paired_b "peer_public_key_b64")

  -- B's connection is severed: A sees it go and come back, and both see the new session.
  unfoldable pub reconnect : String → String → Script (Unit {0})
  reconnect id_a id_b = do
    sever id_b
    awaits side_a (is_status id_b false)
    awaits side_a (is_status id_b true)
    awaits side_a (is_ready id_b)
    awaits side_b (is_ready id_a)

  unfoldable pub flow : String → String → Script (Unit {0})
  flow id_a id_b = do
    exchange_six_digits
    confirm_pairing id_a id_b
    awaits side_a (is_ready id_b)
    awaits side_b (is_ready id_a)
    roundtrips id_a id_b (1 ∷ 1024 ∷ (max_message_bytes - noise_envelope_overhead) ∷ [])
    reconnect id_a id_b
    roundtrips id_a id_b (64 ∷ [])

  unfoldable pub run_positive_flow : Script (Unit {0})
  run_positive_flow = do
    dev_a ← register_device
    dev_b ← register_device
    with_instance side_a (with_instance side_b (flow dev_a.device_id dev_b.device_id))

  -- B's peer store has a wrong key for A, and must have it still.
  unfoldable pub wrong_pin_flow : String → String → Script (Unit {0})
  wrong_pin_flow id_a wrong_key = do
    exchange_code side_a side_b
    awaits side_b (is_type "pair_error")
    pins ← read_pin_file
    check (pin_of id_a pins == wrong_key) "original pin was overwritten"

  unfoldable pub run_wrong_pin_test : Script (Unit {0})
  run_wrong_pin_test = do
    dev_a ← register_device
    register_device
    seed_pin_file
    with_instance side_a
        (with_instance side_b (wrong_pin_flow dev_a.device_id (base64.encode (fill_bytes 32))))

  unfoldable pub key_rewrite_flow : String → Script (Unit {0})
  key_rewrite_flow id_b = do
    rewrite id_b (base64.encode (fill_bytes 32))
    exchange_code side_a side_b
    awaits side_b (is_type "pair_error")

  unfoldable pub run_key_rewrite_test : Script (Unit {0})
  run_key_rewrite_test = do
    register_device
    dev_b ← register_device
    with_instance side_a (with_instance side_b (key_rewrite_flow dev_b.device_id))

  unfoldable pub rekey_flow : String → String → Script (Unit {0})
  rekey_flow victim partner = do
    exchange_code side_a side_b
    awaits side_b (is_type "paired")
    awaits side_a (is_type "paired")
    awaits side_a (is_ready partner)
    awaits side_b (is_ready victim)
    sever victim
    awaits side_b (is_status victim true)
    awaits side_a (is_ready partner)
    awaits side_b (is_ready victim)
    roundtrip side_a side_b victim partner 32
    roundtrip side_b side_a partner victim 32

  -- The victim is side A.
  unfoldable pub run_rekey_safety_test : Script (Unit {0})
  run_rekey_safety_test = do
    devices ← register_ordered 10
    with_instance side_a (with_instance side_b (rekey_flow devices.0.device_id devices.1.device_id))
