-- ===== src/Relay/Tests.antt =====
-- Runs of the server of internal/relay, and instances of the theorems there.
use relayly.Base.{
  ℕ, ◌≡◌, ◌≢◌, refl, inl, inr, String, true, false, Option, none, some, List, [], ◌∷◌, arith,
  lookup, insert, eq_iff, ◌==◌, ◌||◌, if◌then◌else◌, string_eq, nat_eq,
}
use relayly.PairCodes.{new_pair_code_registry, put, take}
use relayly.Database.{
  Row, Rows, find, scan_device, get_device_by_id, pair_devices, unpair_device, check_unpaired,
  link_all, both_ways,
}
use relayly.Database.Pairing.{healthy}
use relayly.Database.Rows.{peer_of}
use relayly.Relay.Client.{
  ControlMessage, WsFrame, blank, binary, new_client, enqueue, close, write_pump,
}
use relayly.Relay.Hub.{
  Server, new_hub, close_old, notify_peer_of, notify_peer_status, send_json, get_client,
  run_register, run_unregister,
}
use relayly.Relay.Control.{
  with_db, handle_pair_accept, handle_unpair, send_welcome, handle_control, dispatch,
  handle_pair_request,
}
use relayly.Relay.Handler.{admit, open_client, is_expired, handle_connect, upgraded}
use relayly.Relay.Events.{
  Event, connects, registers, reads_text, steps, step, register_next, read_binary,
}
use relayly.Relay.Invariant.{IsValid, new_hub-IsValid, steps-IsValid}
use relayly.Relay.Routing.{read_binary_reach}
use relayly.Relay.Reconnect.{run_register_takes_over}
use relayly.Relay.Fifo.{Act, enqueues, writes, act, accepted, stream, acts, stream-acts}
use relayly.Relay.Access.{handle_connect-answer}
use relayly.Relay.Lifetime.{paired_connects}
use relayly.Relay.Linking.{handle_pair_accept_links, handle_pair_accept_refused}
use relayly.Relay.Unlinking.{handle_unpair_unlinks}

abbrev row : String → String → Option String → Row
row id token peer = record {
  id = id;
  name = "n";
  public_key = "";
  device_token = token;
  static_key = none;
  paired_with = peer;
  created_at = 0;
  last_seen = none;
  expires_at = none;
}

-- `a` and `b` are not paired, `c` and `d` are.
abbrev table : Rows
table = row "a" "A" none ∷ row "b" "B" none ∷ row "c" "C" (some "d") ∷ row "d" "D" (some "c") ∷ []

abbrev start : Server
start = new_hub (healthy table)

start-IsValid : IsValid start
start-IsValid = new_hub-IsValid (healthy table)

abbrev connect : String → String → Event
connect id token = connects 5 true id token

-- All four connect and are registered.
abbrev session : List Event
session =
    connect "a" "A"
    ∷ connect "b" "B"
    ∷ connect "c" "C"
    ∷ connect "d" "D"
    ∷ registers
    ∷ registers
    ∷ registers
    ∷ registers
    ∷ []

abbrev running : Server
running = steps session start

running-IsValid : IsValid running
running-IsValid = steps-IsValid session start start-IsValid

steps-IsValid_example : IsValid (steps session (new_hub (healthy table)))
steps-IsValid_example =
    steps-IsValid session (new_hub (healthy table)) (new_hub-IsValid (healthy table))

running_clients : running.clients ≡ ("a", 0) ∷ ("b", 1) ∷ ("c", 2) ∷ ("d", 3) ∷ []
unfolding steps step register_next handle_connect admit open_client is_expired send_welcome
    run_register close_old notify_peer_of notify_peer_status send_json enqueue close new_client
    get_device_by_id find scan_device insert lookup new_hub
running_clients = refl

read_binary_reach_example : (read_binary 2 (7 ∷ []) running).clients ≡ running.clients
read_binary_reach_example = (read_binary_reach 2 3 (7 ∷ []) running running-IsValid).1

-- `c` opens a second connection, which waits to be registered.
abbrev again : Server
again = step (connect "c" "C") running

run_register_takes_over_example :
    ((k : String)
      → get_client k (run_register 4 again) ≡ (if "c" == k then some 4 else get_client k again))
    × (((run_register 4 again).heap 2).closed ≡ true)
    × (run_unregister 2 (run_register 4 again) ≡ run_register 4 again)
unfolding steps step register_next handle_connect admit open_client is_expired send_welcome
    run_register close_old notify_peer_of notify_peer_status send_json enqueue close new_client
    get_device_by_id find scan_device insert lookup new_hub
run_register_takes_over_example = run_register_takes_over 4 2 again (ground arith) refl refl

abbrev frame : ℕ → WsFrame
frame n = record { contents = binary (n ∷ []); close_after = false }

abbrev acts_there : List Act
acts_there = enqueues (frame 1) ∷ enqueues (frame 2) ∷ writes true ∷ enqueues (frame 3) ∷ []

stream-acts_example :
    stream (acts acts_there (new_client "a" "")) ≡ frame 1 ∷ frame 2 ∷ frame 3 ∷ []
unfolding acts act accepted enqueue write_pump new_client
stream-acts_example = stream-acts acts_there (new_client "a" "") refl

handle_connect-answer_example : (handle_connect 5 true "a" "A" start).0 ≡ upgraded
unfolding find new_hub
handle_connect-answer_example = handle_connect-answer 5 true "a" "A" start refl

-- `a` has asked for a code.
abbrev asked : Server
asked =
    step (reads_text 6 (some "123456") false 0 (some (record blank { type = "pair_request" })))
      running

asked-IsValid : IsValid asked
unfolding step steps
asked-IsValid =
    steps-IsValid
      (reads_text 6 (some "123456") false 0 (some (record blank { type = "pair_request" })) ∷ [])
      running running-IsValid

abbrev accept : ControlMessage
accept = record blank { type = "pair_accept"; code = "123456" }

handle_pair_accept_links_example :
    let v = handle_pair_accept 7 true 1 accept asked in
    (peer_of "b" v.db.contents ≡ some "a")
    × (peer_of "a" v.db.contents ≡ some "b")
    × ((v.heap 1).paired_with ≡ "a")
    × ((c : ℕ) → some 0 ≡ some c → (v.heap c).paired_with ≡ "b")
    × (lookup "123456" v.pair_codes.entries ≡ none)
unfolding handle_control dispatch handle_pair_request put take pair_devices check_unpaired link_all
    both_ways new_pair_code_registry steps step register_next handle_connect admit open_client
    is_expired send_welcome run_register close_old notify_peer_of notify_peer_status send_json
    enqueue close new_client get_device_by_id find scan_device insert lookup new_hub
handle_pair_accept_links_example =
    handle_pair_accept_links 7 true 1 accept asked asked-IsValid
      (ground (arith, eq_iff "123456" "")) refl (ground (arith, eq_iff "a" "b")) refl

abbrev unknown : ControlMessage
unknown = record blank { type = "pair_accept"; code = "654321" }

handle_pair_accept_refused_example :
    let v = handle_pair_accept 7 true 1 unknown asked in
    ((v.heap 1).paired_with ≡ "") × (v.db.contents ≡ table)
unfolding handle_control dispatch handle_pair_request put take new_pair_code_registry steps step
    register_next handle_connect admit open_client is_expired send_welcome run_register close_old
    notify_peer_of notify_peer_status send_json enqueue close new_client get_device_by_id find
    scan_device insert lookup new_hub
handle_pair_accept_refused_example =
    handle_pair_accept_refused 7 true 1 1 unknown asked (inr (inl refl))

handle_unpair_unlinks_example :
    let v = handle_unpair 2 running in
    ((k : String)
      → peer_of k v.db.contents ≡ (elim (peer_of k running.db.contents) [
        | none ↦ none
        | some p ↦ if k == "c" || p == "c" then none else some p
      ]))
    × ((v.heap 2).paired_with ≡ "")
    × ((c : ℕ) → ◌≢◌ {A = String} "d" "" → some 3 ≡ some c → (v.heap c).paired_with ≡ "")
unfolding unpair_device steps step register_next handle_connect admit open_client is_expired
    send_welcome run_register close_old notify_peer_of notify_peer_status send_json enqueue close
    new_client get_device_by_id find scan_device insert lookup new_hub
handle_unpair_unlinks_example = handle_unpair_unlinks 2 running refl

-- Two devices whose tokens were to expire at 10.
abbrev soon : Row → Row
soon r = record r { expires_at = some 10 }

abbrev expiring : Server
expiring = new_hub (healthy (soon (row "a" "A" none) ∷ soon (row "b" "B" none) ∷ []))

paired_connects_example :
    let v = (with_db (pair_devices false "a" "b") expiring).1 in
    (handle_connect 1_000 true "a" "A" v).0 ≡ upgraded
unfolding find new_hub pair_devices check_unpaired link_all both_ways
paired_connects_example =
    (paired_connects false "a" "b" (soon (row "a" "A" none)) (soon (row "b" "B" none)) expiring refl
      refl refl
      (
        ground (arith, eq_iff "a" ""),
        ground (arith, eq_iff "b" ""),
        ground (arith, eq_iff "A" ""),
        ground (arith, eq_iff "B" ""),
      )
      refl 1_000).0
