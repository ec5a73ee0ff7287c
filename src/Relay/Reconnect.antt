-- ===== src/Relay/Reconnect.antt =====
-- A device that connects again (internal/relay/hub.go, `Run`).
use relayly.Base.{
  ℕ, ◌≡◌, refl, ◌≢◌, String, true, false, some, arith, lookup, insert, lookup-insert, ◌==◌, nat_eq,
  string_eq, eq_iff, if◌then◌else◌,
}
use relayly.Relay.Client.{close}
use relayly.Relay.Hub.{Server, get_client, run_register, run_unregister, is_current, close_old}
use relayly.Relay.Quiet.{Quiet, notify_peer_of-Quiet, close_old-Quiet}

-- The server once the new connection has its entry, before the peer is told.
entered : ℕ → Server → Server
entered a w =
    let closed = close_old (get_client (w.heap a).device_id w) w in
    record closed { clients = insert (w.heap a).device_id a closed.clients }

run_register-Quiet : (a : ℕ) (w : Server) → Quiet (entered a w) (run_register a w)
unfolding run_register entered
run_register-Quiet a w = notify_peer_of-Quiet a true _

lookup-entered :
    (a : ℕ) (k : String) (w : Server)
    → lookup k (entered a w).clients
      ≡ (if (w.heap a).device_id == k then some a else get_client k w)
unfolding entered
lookup-entered a k w = ground (
  arith,
  lookup-insert (w.heap a).device_id k a w.clients,
  close_old-Quiet (get_client (w.heap a).device_id w) w,
)

get_client-run_register :
    (a : ℕ) (k : String) (w : Server)
    → get_client k (run_register a w)
      ≡ (if (w.heap a).device_id == k then some a else get_client k w)
get_client-run_register a k w = ground (arith, run_register-Quiet a w, lookup-entered a k w)

entered-closed :
    (a old : ℕ) (w : Server)
    → get_client (w.heap a).device_id w ≡ some old
    → (((entered a w).heap old).closed ≡ true)
      × (((entered a w).heap old).device_id ≡ (w.heap old).device_id)
unfolding entered close_old close
entered-closed a old w e = ground arith

run_register-closed :
    (a old : ℕ) (w : Server)
    → get_client (w.heap a).device_id w ≡ some old
    → (((run_register a w).heap old).closed ≡ true)
      × (((run_register a w).heap old).device_id ≡ (w.heap old).device_id)
run_register-closed a old w e =
    ground (arith, entered-closed a old w e, (run_register-Quiet a w).keeps old)

stale-run_unregister : (a : ℕ) (w : Server) → is_current a w ≡ false → run_unregister a w ≡ w
unfolding run_unregister
stale-run_unregister a w e = rw e refl

-- When a device connects again, its new connection takes the registry's entry, the old connection
-- is closed, and no other device's entry changes; when the old connection's end is then processed,
-- nothing happens: the device is not reported offline.
pub run_register_takes_over :
    (a old : ℕ) (w : Server)
    → old ≢ a
    → (w.heap old).device_id ≡ (w.heap a).device_id
    → get_client (w.heap a).device_id w ≡ some old
    → ((k : String)
        → get_client k (run_register a w)
          ≡ (if (w.heap a).device_id == k then some a else get_client k w))
      × (((run_register a w).heap old).closed ≡ true)
      × (run_unregister old (run_register a w) ≡ run_register a w)
unfolding is_current
run_register_takes_over a old w ne same e = (
  λ k. get_client-run_register a k w,
  (run_register-closed a old w e).0,
  stale-run_unregister old (run_register a w) (
      ground (
        arith,
        run_register-closed a old w e,
        get_client-run_register a ((run_register a w).heap old).device_id w,
        eq_iff (w.heap a).device_id ((run_register a w).heap old).device_id,
      )),
)
