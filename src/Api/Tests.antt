-- ===== src/Api/Tests.antt =====
-- A registration over internal/api/handler.go, and an instance of the theorem.
use relayly.Base.{◌≡◌, refl, none, some, [], ◌∷◌, arith, eq_iff, true}
use relayly.Database.{find, find_token}
use relayly.Relay.Hub.{Server, new_hub}
use relayly.Relay.Handler.{unauthorized, handle_connect}
use relayly.Api.{handle_create_device, http_error}
use relayly.Api.Registration.{token_of, register_connects}

abbrev server : Server
server = new_hub (record { contents = []; faults = [] })

-- Five minutes and a nanosecond after the registration.
register_connects_example :
    let r = handle_create_device 0 (some (1 ∷ 2 ∷ [])) "a" (some "laptop") server in
    (handle_connect 300_000_000_001 true "a" (token_of (1 ∷ 2 ∷ [])) r.1).0 ≡ unauthorized
unfolding find find_token new_hub
register_connects_example =
    (register_connects 0 300_000_000_001 1 (2 ∷ []) "a" "laptop" server
      (ground (arith, eq_iff "laptop" "")) (ground (arith, eq_iff "a" "")) refl refl refl).1

-- A request without a name is bad, and so is one without JSON.
nameless :
    (handle_create_device 0 (some (1 ∷ [])) "a" (some "") server ≡ (http_error 400, server))
    × (handle_create_device 0 (some (1 ∷ [])) "a" none server ≡ (http_error 400, server))
unfolding handle_create_device
nameless = (refl, refl)
