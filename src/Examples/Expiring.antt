-- ===== src/Examples/Expiring.antt =====
-- The credentials that examples/go/clipboard-sync/device.go keeps, against the relay that gave them
-- (internal/api/handler.go, internal/relay/handler.go).
use relayly.Base.{
  ◌≡◌, ◌≢◌, refl, ap, ◌∙◌, ℕ, ◌+◌, ◌<◌, String, true, some, none, List, [], ◌∷◌, arith, ok, lt→ltb,
  eq_iff, nat_eq, string_eq,
}
use relayly.Pairing.{device_token_ttl}
use relayly.Database.{find, find_token}
use relayly.Relay.Hub.{Server}
use relayly.Relay.Handler.{unauthorized, handle_connect}
use relayly.Sdk.Keys.{FileSystem, Files, expand_home}
use relayly.Api.{handle_create_device}
use relayly.Api.Registration.{token_of, token_nonempty, register_connects}
use relayly.Examples.Registering.{
  DeviceCreds, Json, Url, Posted, posted, saved_creds, save_creds, register, devices_endpoint,
  register_or_load_device, register_or_load_device_keeps,
}

module _ (json : Json) (fs : FileSystem) where
  registers :
      (url : Url) (path : String) (files : Files) (c : DeviceCreds) (post : Url → Posted)
      → saved_creds json fs (expand_home fs path) files ≡ none
      → (fs.makes_directories ≡ true) × (fs.writes ≡ true)
      → ((u : Url) → post u ≡ some (200, some c))
      → (register_or_load_device json fs (some url) post path files).0 ≡ ok c
  unfolding register_or_load_device register save_creds
  registers url path files c post unsaved works answers =
      ground (arith, answers (devices_endpoint url))

  -- A device of the examples that registers, over a healthy database and with a new id and token,
  -- is refused once the token's lifetime is over, as long as the relay's table stays as the
  -- registration left it, its file can be read and written and JSON reads back what it writes:
  -- every later start takes the same credentials from the file, whatever the server would answer,
  -- changes no file, and a connection with them is refused as unauthorized.
  pub expired_for_good :
      (now later b : ℕ) (bs : List ℕ) (uuid name path : String) (url : Url) (files : Files)
      (w : Server)
      → ((d : DeviceCreds) → json.decode (json.encode d) ≡ some d)
      → name ≢ ""
      → uuid ≢ ""
      → w.db.faults ≡ []
      → find uuid w.db.contents ≡ none
      → find_token (token_of (b ∷ bs)) w.db.contents ≡ none
      → saved_creds json fs (expand_home fs path) files ≡ none
      → (fs.reads ≡ true) × ((fs.makes_directories ≡ true) × (fs.writes ≡ true))
      → now + device_token_ttl < later
      → let r = handle_create_device now (some (b ∷ bs)) uuid (some name) w in
        let c : DeviceCreds = record { device_id = uuid; device_token = token_of (b ∷ bs) } in
        let after = (register_or_load_device json fs (some url) (λ u. posted r.0) path files).1 in
        ((post : Url → Posted)
          → register_or_load_device json fs (some url) post path after ≡ (ok c, after))
        × ((handle_connect later true c.device_id c.device_token r.1).0 ≡ unauthorized)
  unfolding posted
  expired_for_good now later b bs uuid name path url files w laws named identified healthy fresh
        unused unsaved works late =
      let random = b ∷ bs in
      let r = handle_create_device now (some random) uuid (some name) w in
      let c : DeviceCreds = record { device_id = uuid; device_token = token_of random } in
      let (answered, refused) =
        register_connects now later b bs uuid name w named identified healthy fresh unused in
      let first =
        registers url path files c (λ u. posted r.0) unsaved works.1 (λ u. ap posted answered) in
      (
        λ post.
            register_or_load_device_keeps json fs (some url) (some url) (λ u. posted r.0) post path
              files c laws works.0
              (ground (arith, eq_iff uuid "", eq_iff (token_of random) "", token_nonempty b bs))
              first,
        refused ∙ rw (lt→ltb _ _ late) refl,
      )
