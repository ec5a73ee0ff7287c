-- ===== src/Relay/Invariant.antt =====
-- What holds of the server of internal/relay in every reachable state.
use relayly.Base.{
  Result, ok, err, ◌||◌, ℕ, suc, ◌≤◌, ◌<◌, ◌≡◌, refl, sym, subst₂, inl, inr, String, Bool, true,
  false, some, List, [], ◌∷◌, All, All-append, arith, length, lookup, insert, erase, subst,
  lookup-insert, lookup-erase, ltb, ◌==◌, nat_eq, string_eq, eq_iff, Bool-cases,
}
use relayly.Database.{Db, Device, DbError, get_device_by_id}
use relayly.Database.History.{apply}
use relayly.Relay.Client.{new_client, close, peer}
use relayly.Relay.Hub.{
  Server, new_hub, get_client, is_current, run_register, run_unregister, close_old,
}
use relayly.Relay.Handler.{handle_connect, admit, open_client, is_expired}
use relayly.Relay.Events.{
  Event, connects, registers, unregisters, reads_text, reads_binary, read_fails, writes, pings,
  database, register_next, unregister_next, read_binary, end_pump, step, steps,
}
use relayly.Relay.Quiet.{
  Quiet, Quiet-refl, at-Quiet, close-Keeps, write_pump-Keeps, ping-Keeps, if-Quiet, with_db-Quiet,
  route-Quiet, notify_peer_of-Quiet, close_old-Quiet, unregister-Quiet,
}
use relayly.Relay.Quiet.Handlers.{handle_control-Quiet, send_welcome-Quiet}

pub record IsValid (w : Server) : Type 0 where
  -- the connection registered for a device is one of that device
  pub registered :
      (id : String) (a : ℕ) → get_client id w ≡ some a → ((w.heap a).device_id ≡ id) × (a < w.next)
  -- what waits to be registered is in use
  pub waiting : All (λ a. a < w.next) w.register
  -- no send queue outgrows its buffer
  pub bounded : (a : ℕ) → length (w.heap a).send ≤ 256

pub Quiet-IsValid : {w v : Server} → Quiet w v → IsValid w → IsValid v
Quiet-IsValid {w} {v} q h = record {
  registered = λ id a e. ground (arith, h.registered id a, q.keeps a, q.clients_same, q.next_same);
  waiting =
      subst₂ (λ n queue. All (λ a. a < n) queue) (sym q.next_same) (sym q.register_same) h.waiting;
  bounded = λ a. (q.keeps a).within (h.bounded a);
}

pub new_hub-IsValid : (db : Db) → IsValid (new_hub db)
unfolding new_hub lookup
new_hub-IsValid db = record {
  registered = λ id a e. ground arith;
  waiting = tt;
  bounded = λ a. omega arith;
}

-- The `Register` case: the connection takes the place of its device's old one.
insert-IsValid :
    (a : ℕ) (w : Server)
    → a < w.next
    → IsValid w
    → IsValid (record w { clients = insert (w.heap a).device_id a w.clients })
insert-IsValid a w lt h = record {
  registered = λ id b e. ground (
    arith,
    h.registered id b,
    lookup-insert (w.heap a).device_id id a w.clients,
    eq_iff (w.heap a).device_id id,
  );
  waiting = h.waiting;
  bounded = h.bounded;
}

run_register-IsValid : (a : ℕ) (w : Server) → a < w.next → IsValid w → IsValid (run_register a w)
unfolding run_register
run_register-IsValid a w lt h =
    let q = close_old-Quiet (get_client (w.heap a).device_id w) w in
    let closed = close_old (get_client (w.heap a).device_id w) w in
    Quiet-IsValid (notify_peer_of-Quiet a true _) (
      subst (λ id. IsValid (record closed { clients = insert id a closed.clients }))
        (q.keeps a).id_same (insert-IsValid a closed (rw q.next_same lt) (Quiet-IsValid q h)))

register_next-IsValid :
    (queue : List ℕ) (w : Server) → w.register ≡ queue → IsValid w → IsValid (register_next queue w)
unfolding register_next
register_next-IsValid [] w e h = h
register_next-IsValid (a ∷ rest) w e h =
    let waiting : All (λ b. b < w.next) (a ∷ rest) = subst (All (λ b. b < w.next)) e h.waiting in
    run_register-IsValid a _ waiting.0
      (record { registered = h.registered; waiting = waiting.1; bounded = h.bounded })

erase-IsValid :
    (id : String) (w : Server) → IsValid w → IsValid (record w { clients = erase id w.clients })
erase-IsValid id w h = record {
  registered = λ j b e. ground (arith, h.registered j b, lookup-erase id j w.clients);
  waiting = h.waiting;
  bounded = h.bounded;
}

run_unregister-IsValid : (a : ℕ) (w : Server) → IsValid w → IsValid (run_unregister a w)
unfolding run_unregister
run_unregister-IsValid a w h = elim (Bool-cases (is_current a w)) [
  | inl e ↦
      rw (e, run_unregister)
        (Quiet-IsValid (notify_peer_of-Quiet a false _) (erase-IsValid (w.heap a).device_id w h))
  | inr e ↦ rw (e, run_unregister) h
]

unregister_next-IsValid :
    (queue : List ℕ) (w : Server) → IsValid w → IsValid (unregister_next queue w)
unfolding unregister_next
unregister_next-IsValid [] w h = h
unregister_next-IsValid (a ∷ rest) w h =
    run_unregister-IsValid a _ (Quiet-IsValid (unregister-Quiet rest (Quiet-refl w)) h)

All-later : (n : ℕ) (queue : List ℕ) → All (λ a. a < n) queue → All (λ a. a < suc n) queue
All-later n [] h = tt
All-later n (a ∷ queue) h = (omega (arith, h.0), All-later n queue h.1)

open_client-IsValid :
    (device : Device) (id : String) (w : Server) → IsValid w → IsValid (open_client device id w)
unfolding open_client new_client
open_client-IsValid device id w h = Quiet-IsValid (send_welcome-Quiet w.next device _) (record {
  registered = λ j b e. ground (arith, h.registered j b);
  waiting =
      All-append (λ a. a < suc w.next) w.register (w.next ∷ [])
        (All-later w.next w.register h.waiting) (omega arith);
  bounded = λ b. ground (arith, h.bounded b);
})

admit-IsValid :
    (now : ℕ) (upgrades : Bool) (id token : String) (r : Result DbError Device) (w : Server)
    → IsValid w
    → IsValid (admit now upgrades id token (r, w)).1
unfolding admit
admit-IsValid now upgrades id token (err e) w h = h
admit-IsValid now upgrades id token (ok device) w h =
    elim (Bool-cases (device.device_token == token)) [
      | inr e ↦ rw (e, admit) h
      | inl e ↦ elim (Bool-cases (is_expired now device)) [
        | inl x ↦ rw (e, x, admit) h
        | inr x ↦ elim (Bool-cases upgrades) [
          | inl u ↦ rw (e, x, u, admit) (open_client-IsValid device id w h)
          | inr u ↦ rw (e, x, u, admit) h
        ]
      ]
    ]

handle_connect-IsValid :
    (now : ℕ) (upgrades : Bool) (id token : String) (w : Server)
    → IsValid w
    → IsValid (handle_connect now upgrades id token w).1
unfolding handle_connect
handle_connect-IsValid now upgrades id token w h = elim (Bool-cases (id == "" || token == "")) [
  | inl e ↦ rw (e, handle_connect) h
  | inr e ↦
      rw (e, handle_connect)
        (admit-IsValid now upgrades id token _ _
          (Quiet-IsValid (with_db-Quiet (get_device_by_id id) w) h))
]

step-IsValid : (e : Event) (w : Server) → IsValid w → IsValid (step e w)
unfolding step read_binary end_pump
step-IsValid (connects now upgrades id token) w h = handle_connect-IsValid now upgrades id token w h
step-IsValid registers w h = register_next-IsValid w.register w refl h
step-IsValid unregisters w h = unregister_next-IsValid w.unregister w h
step-IsValid (reads_text now code swapped a msg) w h =
    Quiet-IsValid (if-Quiet _ _ _ (handle_control-Quiet now code swapped a msg w) (Quiet-refl w)) h
step-IsValid (reads_binary a payload) w h =
    Quiet-IsValid
      (if-Quiet (w.heap a).conn_open _ _
        (if-Quiet (peer (w.heap a)).1 _ _ (route-Quiet payload _ w) (Quiet-refl w)) (Quiet-refl w))
      h
step-IsValid (read_fails a) w h =
    Quiet-IsValid
      (if-Quiet (ltb a w.next) _ _ (unregister-Quiet _ (at-Quiet a close w close-Keeps))
        (Quiet-refl w))
      h
step-IsValid (writes written a) w h = Quiet-IsValid (at-Quiet a _ w (write_pump-Keeps written)) h
step-IsValid (pings written a) w h = Quiet-IsValid (at-Quiet a _ w (ping-Keeps written)) h
step-IsValid (database op) w h = Quiet-IsValid (with_db-Quiet (apply op) w) h

-- Whatever requests, frames, failures and changes of the database come in whatever order, a server
-- in which the connection registered for a device is one of that device, what waits to be
-- registered is in use, and no connection has more than 256 frames waiting, stays such.
pub steps-IsValid : (es : List Event) (w : Server) → IsValid w → IsValid (steps es w)
unfolding steps
steps-IsValid [] w h = h
steps-IsValid (e ∷ es) w h = steps-IsValid es (step e w) (step-IsValid e w h)
