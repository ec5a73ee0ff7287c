-- ===== src/Sdk/Tests.antt =====
-- A toy of the Noise library, a client of sdk/go over it, and instances of the theorems.
use relayly.Base.{
  length, ℕ, ◌≤◌, suc, ◌≡◌, refl, true, false, Option, none, some, List, [], ◌∷◌, err, arith,
  replicate, lookup, insert, erase, eq_iff, string_eq, nat_eq, ◌==◌, if◌then◌else◌,
}
use relayly.Relay.Client.{blank}
use relayly.Sdk.PeerStore.{
  PeerStore, peer_key_mismatch, save_failed, pin_or_verify, save_locked, get,
}
use relayly.Sdk.Noise.{
  NoiseLib, NoiseSession, new_initiator_session, handle_handshake_message, ready, read_msg2,
  write_msg3, finish_locked, decode_envelope, encrypt,
}
use relayly.Sdk.Peer.{PeerConn, new_peer_conn, handle_handshake_envelope, start_as_initiator, send}
use relayly.Sdk.Client.{
  Base64, Client, Surroundings, verify_and_pin, key_mismatch, read_handshake, resolve_driven,
  resolve_handshake, resolve_verified, conclude, tell_waiter, announce_ready, cross_check,
}
use relayly.Sdk.Frames.{
  Event, waits, reads_text, reads_binary, steps, step, dispatch, handle_pair_complete, with_waiter,
  read_binary, send_message,
}
use relayly.Sdk.Owed.{told, owed}
use relayly.Sdk.Once.{steps-told}
use relayly.Sdk.Backoff.{
  fails, connects, reconnect_with_backoff, waits_from, reconnect_with_backoff_lem,
}
use relayly.Sdk.Pins.{pin_or_verify_lem, pin_or_verify_unsaved}
use relayly.Sdk.Sessions.{handle_handshake_envelope_keeps}
use relayly.Sdk.Driving.{verify_and_pin_announced}
use relayly.Sdk.Trust.{AllTrusted}
use relayly.Sdk.Invariant.{steps-pins}
use relayly.Sdk.Meanwhile.{
  Busy, whole, amid, sends, takes, busy_steps, busy_step, read_handshake_amid, drive_amid,
  end_handshake, calls, event_of,
}
use relayly.Sdk.Amid.{busy_steps-AllTrusted}

abbrev second : List ℕ → Option (List ℕ)
second [] = none
second (x ∷ xs) = some xs

-- Every handshake authenticates the key of thirty-two sevens; an empty message fails.
abbrev toy : NoiseLib
toy = record {
  PrivateKey = ℕ;
  HandshakeState = ℕ;
  CipherState = ℕ;
  new_handshake_state = λ initiator priv random. some random;
  write_message = λ h. (suc h, some (h ∷ [], some (1, 2)));
  read_message = λ message h. elim message [ [] ↦ (h, none) | x ∷ xs ↦ (h, some (some (1, 2))) ];
  peer_static = λ h. replicate 32 7;
  encrypt = λ text c. (suc c, some (c ∷ text));
  decrypt = λ text c. (suc c, second text);
}

abbrev toy64 : Base64
toy64 = record {
  encode = λ bytes. elim bytes [ [] ↦ "" | b ∷ bs ↦ if b == 7 then "sevens" else "others" ];
  decode = λ text. if text == "sevens" then some (replicate 32 7) else none;
}

abbrev client : Client toy toy64
client = record {
  device_id = "a";
  private_key = 0;
  peer_store = record { peers = []; disk = none };
  peers = [];
  messages = [];
  sends = [];
  pair_waiters = [];
  results = [];
  readied = [];
}

abbrev env : Surroundings toy toy64
env = record { now = 9; date = "today"; saves = true; random = 4; first = "b" }

-- The client accepts a code, is linked with `b`, and reads msg2.
abbrev run : List (Event toy toy64)
run =
    waits "123456" (record { channel = 1; we_are_acceptor = true })
    ∷ reads_text 4 (record blank { type = "pair_complete"; code = "123456"; peer_id = "b" })
    ∷ reads_binary env (1 ∷ 8 ∷ [])
    ∷ []

client-AllTrusted : AllTrusted toy toy64 client
unfolding lookup
client-AllTrusted key p h = ground arith

-- The same, with a message that another goroutine sends while msg2 is answered.
abbrev busy_run : List (Busy toy toy64)
busy_run =
    whole (waits "123456" (record { channel = 1; we_are_acceptor = true }))
    ∷ whole (reads_text 4 (record blank { type = "pair_complete"; code = "123456"; peer_id = "b" }))
    ∷ amid env (8 ∷ []) (sends "b" (1 ∷ []) ∷ []) (takes ∷ [])
    ∷ []

busy_steps-AllTrusted_example : AllTrusted toy toy64 (busy_steps toy toy64 busy_run client)
busy_steps-AllTrusted_example = busy_steps-AllTrusted toy toy64 busy_run client client-AllTrusted

-- The message is encrypted and queued although the peer's pin is that of another key, for which the
-- session is refused right after.
abbrev warned : Client toy toy64
warned = record client {
  peer_store = record {
    peers = ("b", record { static_key = "other"; pinned_at = "before" }) ∷ [];
    disk = none;
  };
}

sent_unpinned :
    (length (busy_steps toy toy64 busy_run warned).sends ≡ 3)
    × (get "b" (busy_steps toy toy64 busy_run warned).peer_store ≡ some "other")
unfolding busy_steps busy_step read_handshake_amid drive_amid end_handshake calls event_of step
    dispatch handle_pair_complete with_waiter resolve_handshake resolve_verified conclude
    tell_waiter announce_ready verify_and_pin pin_or_verify get lookup insert erase
    new_initiator_session handle_handshake_message read_msg2 write_msg3 finish_locked
    handle_handshake_envelope start_as_initiator new_peer_conn send_message send encrypt
sent_unpinned = (refl, refl)

-- The run ends with the key pinned, and the peer told to be ready.
run_pins : get "b" (steps toy toy64 run client).peer_store ≡ some "sevens"
unfolding steps step dispatch handle_pair_complete with_waiter read_binary read_handshake
    resolve_driven resolve_handshake resolve_verified conclude tell_waiter announce_ready
    cross_check verify_and_pin pin_or_verify get lookup insert erase new_initiator_session
    handle_handshake_message read_msg2 write_msg3 finish_locked handle_handshake_envelope
    start_as_initiator new_peer_conn decode_envelope save_locked
run_pins = refl

abbrev pinned : PeerStore
pinned = record {
  peers = ("b", record { static_key = "sevens"; pinned_at = "" }) ∷ [];
  disk = none;
}

steps-pins_example :
    get "b" (steps toy toy64 run (record client { peer_store = pinned })).peer_store ≡ some "sevens"
unfolding get lookup
steps-pins_example =
    steps-pins toy toy64 run (record client { peer_store = pinned }) "b" "sevens" refl

pin_or_verify_lem_example : (pin_or_verify true "" "b" "others" pinned).0 ≡ err peer_key_mismatch
unfolding get lookup
pin_or_verify_lem_example = (pin_or_verify_lem true "" "b" "others" "b" pinned).0

pin_or_verify_unsaved_example : (pin_or_verify false "" "c" "others" pinned).0 ≡ err save_failed
unfolding get lookup
pin_or_verify_unsaved_example =
    (pin_or_verify_unsaved true "" "" "c" "others" pinned (ground (arith, eq_iff "b" "c"))).0

abbrev session : NoiseSession toy
session = record {
  status = ready;
  error = none;
  initiator = true;
  hs = 0;
  got_msg1 = false;
  ciphers = some (1, 2);
  peer_static = replicate 32 7;
}

abbrev paired : PeerConn toy
paired = record {
  id = "b";
  announced_static_key = "others";
  active = some session;
  pending = none;
  first_pair_waiter = none;
  last_unsolicited_msg1 = 0;
}

handle_handshake_envelope_keeps_example :
    (handle_handshake_envelope toy 0 0 3_000_000_000 (8 ∷ []) paired).peer.active ≡ some session
handle_handshake_envelope_keeps_example =
    (handle_handshake_envelope_keeps toy 0 0 3_000_000_000 (8 ∷ []) (5 ∷ []) paired session refl
      refl).0

verify_and_pin_announced_example :
    let v = verify_and_pin toy toy64 env paired session (record { peers = []; disk = none }) in
    (v.0 ≡ err key_mismatch) × (get "b" v.1 ≡ some "sevens")
unfolding get lookup
verify_and_pin_announced_example =
    verify_and_pin_announced toy toy64 env paired session (record { peers = []; disk = none })
      (ground (arith, eq_iff "others" "")) (ground (arith, eq_iff "others" "sevens")) refl refl

-- The wait doubles, up to the maximum.
reconnect_with_backoff_lem_example :
    reconnect_with_backoff (some 1000) 3000 (fails ∷ fails ∷ fails ∷ connects ∷ [])
    ≡ (1000 ∷ 2000 ∷ 3000 ∷ 3000 ∷ [], some true)
unfolding waits_from
reconnect_with_backoff_lem_example = reconnect_with_backoff_lem 1000 3000 3 []

-- Channel 1 of the run.
steps-told_example : told 1 (steps toy toy64 run client).results ≤ 1
unfolding owed
steps-told_example = steps-told 1 toy toy64 run client (omega arith)
