-- ===== src/Relay/Access.antt =====
-- Who gets a connection (internal/relay/handler.go).
use relayly.Base.{
  ℕ, ◌≡◌, refl, ◌≢◌, inl, inr, String, Bool, false, ◌||◌, not, ◌&&◌, Option, none, some, [], arith,
  ltb, ok, ◌==◌, nat_eq, string_eq, if◌then◌else◌, Bool-cases, ◌∙◌, ap₂,
}
use relayly.Database.{Row, Device, find, scan_device}
use relayly.Database.Lookups.{get_device_by_id-reads, get_device_by_id-healthy, device_or_missing}
use relayly.Relay.Hub.{Server}
use relayly.Relay.Handler.{
  Response, bad_request, unauthorized, upgrade_failed, upgraded, is_expired, handle_connect, admit,
}

-- A token without a date does not expire.
abbrev pub is_over : ℕ → Option ℕ → Bool
is_over now none = false
is_over now (some t) = ltb t now

is_expired-scan_device :
    (now : ℕ) (r : Row) → is_expired now (scan_device r) ≡ is_over now r.expires_at
unfolding is_expired scan_device
is_expired-scan_device now r = over r.expires_at
  where
    over : (t : Option ℕ) → (elim t [ none ↦ false | some u ↦ ltb u now ]) ≡ is_over now t
    over none = refl
    over (some u) = refl

-- The answer where the token is right or not, and expired or not.
abbrev pub decision : Bool → Bool → Bool → Response
decision right over upgrades =
    if right && not over then (if upgrades then upgraded else upgrade_failed) else unauthorized

-- The answer to a request, from the device's row.
abbrev pub answer : ℕ → Bool → String → Option Row → Response
answer now upgrades token none = unauthorized
answer now upgrades token (some r) =
    decision (r.device_token == token) (is_over now r.expires_at) upgrades

admit-device :
    (now : ℕ) (upgrades : Bool) (id token : String) (d : Device) (w : Server)
    → (admit now upgrades id token (ok d, w)).0
      ≡ decision (d.device_token == token) (is_expired now d) upgrades
unfolding admit
admit-device now upgrades id token d w = ground arith

token-scan_device : (r : Row) → (scan_device r).device_token ≡ r.device_token
unfolding scan_device
token-scan_device r = refl

admit-answer :
    (now : ℕ) (upgrades : Bool) (id token : String) (r : Option Row) (w : Server)
    → (admit now upgrades id token (device_or_missing r, w)).0 ≡ answer now upgrades token r
unfolding admit
admit-answer now upgrades id token none w = refl
admit-answer now upgrades id token (some r) w =
    admit-device now upgrades id token (scan_device r) w
    ∙ ap₂ (λ t over. decision (t == token) over upgrades) (token-scan_device r)
        (is_expired-scan_device now r)

-- While the driver runs every statement, a request is answered with a connection exactly if it
-- names a device and its token, the device is registered with that token, the token has not
-- expired, and the upgrade works; a request without both is bad, one whose upgrade fails gets that
-- failure, and any other is unauthorized.
pub handle_connect-answer :
    (now : ℕ) (upgrades : Bool) (id token : String) (w : Server)
    → w.db.faults ≡ []
    → (handle_connect now upgrades id token w).0 ≡ (
        if id == "" || token == ""
        then bad_request
        else answer now upgrades token (find id w.db.contents))
unfolding handle_connect
handle_connect-answer now upgrades id token w f = elim (Bool-cases (id == "" || token == "")) [
  | inl e ↦ rw (e, handle_connect) refl
  | inr e ↦
      rw (e, handle_connect)
        (rw (get_device_by_id-healthy id w.db f).0
          (admit-answer now upgrades id token (find id w.db.contents) _))
]

-- A request that gets no connection leaves no trace in the connections, the registry, the queue of
-- new connections and the rows.
pub handle_connect-refused :
    (now : ℕ) (upgrades : Bool) (id token : String) (w : Server)
    → (handle_connect now upgrades id token w).0 ≢ upgraded
    → let v = (handle_connect now upgrades id token w).1 in
      (v.heap ≡ w.heap)
      × (v.register ≡ w.register)
      × (v.next ≡ w.next)
      × (v.clients ≡ w.clients)
      × (v.db.contents ≡ w.db.contents)
unfolding handle_connect admit
handle_connect-refused now upgrades id token w h = ground (arith, get_device_by_id-reads id w.db)
