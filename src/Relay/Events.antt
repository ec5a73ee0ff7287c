-- ===== src/Relay/Events.antt =====
-- The events of internal/relay in any order: each is what one goroutine does between two waits.
-- The channels `Register` and `Unregister` are unbounded here; in Go a sender waits while one holds
-- 64 entries.
use relayly.Base.{ℕ, String, Bool, Option, List, [], ◌∷◌, ◌++◌, ltb, if◌then◌else◌}
use relayly.Database.History.{Op, apply}
use relayly.Relay.Client.{ControlMessage, peer, close, write_pump, ping}
use relayly.Relay.Hub.{Server, at, run_register, run_unregister, route}
use relayly.Relay.Control.{with_db, handle_control}
use relayly.Relay.Handler.{handle_connect}

pub data Event : Type 0 where
  -- a request to the WebSocket endpoint
  connects : ℕ → Bool → String → String → Event
  -- the hub's loop takes the next entry of a channel
  registers unregisters : Event
  -- readPump has a text or a binary frame of the client, or an error
  reads_text : ℕ → Option String → Bool → ℕ → Option ControlMessage → Event
  reads_binary : ℕ → List ℕ → Event
  read_fails : ℕ → Event
  -- writePump makes a round
  writes pings : Bool → ℕ → Event
  -- the database changes behind the hub: `TouchLastSeen`, the admin UI, the API and the CLI
  database : Op → Event

unfoldable pub register_next : List ℕ → Server → Server
register_next [] w = w
register_next (a ∷ rest) w = run_register a (record w { register = rest })

unfoldable pub unregister_next : List ℕ → Server → Server
unregister_next [] w = w
unregister_next (a ∷ rest) w = run_unregister a (record w { unregister = rest })

-- readPump's case of a binary frame: an unpaired client's is discarded.
unfoldable pub read_binary : ℕ → List ℕ → Server → Server
read_binary a payload w = if (peer (w.heap a)).1 then route payload (peer (w.heap a)).0 w else w

-- The deferred end of `Pump`.
unfoldable pub end_pump : ℕ → Server → Server
end_pump a w = record (at a close w) { unregister = w.unregister ++ a ∷ [] }

-- A client reads while its connection is open; an address not in use has none.
unfoldable pub step : Event → Server → Server
step (connects now upgrades id token) w = (handle_connect now upgrades id token w).1
step registers w = register_next w.register w
step unregisters w = unregister_next w.unregister w
step (reads_text now code swapped a msg) w =
    if (w.heap a).conn_open then handle_control now code swapped a msg w else w
step (reads_binary a payload) w = if (w.heap a).conn_open then read_binary a payload w else w
step (read_fails a) w = if ltb a w.next then end_pump a w else w
step (writes written a) w = at a (write_pump written) w
step (pings written a) w = at a (ping written) w
step (database op) w = (with_db (apply op) w).1

unfoldable pub steps : List Event → Server → Server
steps [] w = w
steps (e ∷ es) w = steps es (step e w)
