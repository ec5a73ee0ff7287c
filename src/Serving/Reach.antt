-- ===== src/Serving/Reach.antt =====
-- What a request to the relay's HTTP server can change.
use relayly.Base.{
  ◌≡◌, ◌≢◌, ◌⊎◌, inl, inr, refl, String, List, [], ◌∷◌, ◌++◌, ◌==◌, arith, eq_iff, string_eq,
  Bool-cases,
}
use relayly.Database.{list_devices}
use relayly.Relay.Hub.{Server, SameServer}
use relayly.Http.{
  Request, Answer, handled_by, moved_permanently, method_not_allowed, not_found, dispatch,
  fits_path, fits_method, find, after_segments, is_exact, ends_in_slash, any_method, comes_before,
}
use relayly.Http.Found.{Offers-dispatch, fits-one, fits-three}
use relayly.Api
use relayly.Serving.{
  Call, Reply, Build, State, ApiRoute, list_devices as lists, create_device,
  deprecated_create_device, show_health, api_routes, serve_api_route, api_mux, api_handler,
  cors_middleware, routed, RelayRoute, websocket, relay_status, api, relay_routes,
  serve_relay_route, serve, create, cors_headers, deprecated,
}

-- A POST to one of the two addresses that register a device.
abbrev pub IsRegistration : Request → Type 0
IsRegistration r =
    (r.method ≡ "POST")
    × ((r.path ≡ "api" ∷ "v1" ∷ "devices" ∷ []) ⊎ (r.path ≡ "api" ∷ "v1" ∷ "pair" ∷ []))

websocket-path : (r : Request) → dispatch relay_routes r ≡ handled_by websocket → r.path ≡ "ws" ∷ []
unfolding fits_path
websocket-path r h = elim (Offers-dispatch r websocket relay_routes h) [
  | inl (e, f) ↦ fits-one "ws" r.path (ground arith)
  | inr rest ↦ absurd (ground arith)
]

create_device-IsRegistration :
    (r : Request) → dispatch api_routes r ≡ handled_by create_device → IsRegistration r
unfolding fits_path fits_method
create_device-IsRegistration r h = elim (Offers-dispatch r create_device api_routes h) [
  | inl (e, f) ↦ absurd (ground arith)
  | inr (inl (e, f)) ↦ (
    ground (arith, eq_iff r.method "POST"),
    inl (fits-three "api" "v1" "devices" r.path (ground arith)),
  )
  | inr (inr rest) ↦ absurd (ground arith)
]

deprecated-IsRegistration :
    (r : Request) → dispatch api_routes r ≡ handled_by deprecated_create_device → IsRegistration r
unfolding fits_path fits_method
deprecated-IsRegistration r h = elim (Offers-dispatch r deprecated_create_device api_routes h) [
  | inl (e, f) ↦ absurd (ground arith)
  | inr (inl (e, f)) ↦ absurd (ground arith)
  | inr (inr (inl (e, f))) ↦ (
    ground (arith, eq_iff r.method "POST"),
    inr (fits-three "api" "v1" "pair" r.path (ground arith)),
  )
  | inr (inr (inr rest)) ↦ absurd (ground arith)
]

list-SameServer : (w : Server) → SameServer (Api.handle_list_devices w).1 w
unfolding Api.handle_list_devices list_devices
list-SameServer w = ground arith

api_answer-SameServer :
    (b : Build) (call : Call) (w : Server) (a : Answer ApiRoute)
    → ¬ (IsRegistration call.request)
    → dispatch api_routes call.request ≡ a
    → SameServer (routed (λ h v. serve_api_route b h call v) a w).1 w
unfolding serve_api_route
api_answer-SameServer b call w (handled_by lists) other e = list-SameServer w
api_answer-SameServer b call w (handled_by show_health) other e = refl
api_answer-SameServer b call w (handled_by create_device) other e =
    absurd (other (create_device-IsRegistration call.request e))
api_answer-SameServer b call w (handled_by deprecated_create_device) other e =
    absurd (other (deprecated-IsRegistration call.request e))
api_answer-SameServer b call w moved_permanently other e = refl
api_answer-SameServer b call w method_not_allowed other e = refl
api_answer-SameServer b call w not_found other e = refl

api_handler-SameServer :
    (b : Build) (call : Call) (w : Server)
    → ¬ (IsRegistration call.request)
    → SameServer (api_handler b call w).1 w
unfolding api_handler cors_middleware api_mux
api_handler-SameServer b call w other = elim (Bool-cases (call.request.method == "OPTIONS")) [
  | inl e ↦ rw e refl
  | inr e ↦ rw e (api_answer-SameServer b call w (dispatch api_routes call.request) other refl)
]

answer-SameServer :
    (b : Build) (call : Call) (s : State) (a : Answer RelayRoute)
    → call.request.path ≢ "ws" ∷ []
    → ¬ (IsRegistration call.request)
    → dispatch relay_routes call.request ≡ a
    → let t = (routed (serve_relay_route b call) a s).1 in
      (t.limiter ≡ s.limiter) × SameServer t.server s.server
unfolding serve_relay_route
answer-SameServer b call s (handled_by websocket) elsewhere other e =
    absurd (elsewhere (websocket-path call.request e))
answer-SameServer b call s (handled_by relay_status) elsewhere other e = (refl, refl)
answer-SameServer b call s (handled_by api) elsewhere other e =
    (refl, api_handler-SameServer b call s.server other)
answer-SameServer b call s moved_permanently elsewhere other e = (refl, refl)
answer-SameServer b call s method_not_allowed elsewhere other e = (refl, refl)
answer-SameServer b call s not_found elsewhere other e = (refl, refl)

-- A request to the relay's HTTP server that is not for `/ws`, and is no POST to `/api/v1/devices`
-- or `/api/v1/pair`, changes nothing, whatever its method and path: the connections, the registry,
-- the pairing codes, the rows and the rate limiter stay as they are.
pub serve_reach :
    (b : Build) (call : Call) (s : State)
    → call.request.path ≢ "ws" ∷ []
    → ¬ (IsRegistration call.request)
    → let t = (serve b call s).1 in (t.limiter ≡ s.limiter) × SameServer t.server s.server
unfolding serve
serve_reach b call s elsewhere other =
    answer-SameServer b call s (dispatch relay_routes call.request) elsewhere other refl

-- What both registrations answer, with the header that only the old address adds.
abbrev pub registered : List (String × String) → Call → State → Reply × State
registered headers call s =
    let r = create call s.server in
    (record r.0 { headers = cors_headers ++ headers ++ r.0.headers }, record s { server = r.1 })

abbrev pub at : String → Call → Call
at name call = record call { request = record { method = "POST"; path = "api" ∷ "v1" ∷ name ∷ [] } }

-- A registration at either address does the same: to POST to `/api/v1/pair` is to POST to
-- `/api/v1/devices`, with the header `Deprecation` as well.
pub serve-registered :
    (b : Build) (call : Call) (s : State)
    → (serve b (at "devices" call) s ≡ registered [] call s)
      × (serve b (at "pair" call) s ≡ registered (("Deprecation", "true") ∷ []) call s)
unfolding serve dispatch find after_segments fits_path fits_method is_exact ends_in_slash any_method
    comes_before serve_relay_route api_handler cors_middleware api_mux serve_api_route deprecated
    create
serve-registered b call s = (refl, refl)
