-- ===== src/Serving.antt =====
-- The relay's HTTP server: its routes (internal/cli/start.go), those of the REST API with its CORS
-- headers (internal/api/server.go and handler.go), over the hub, the database and the rate limiter.
pub mod Reach
mod Tests
use relayly.Base.{
  ℕ, String, Bool, true, false, Option, none, some, List, [], ◌∷◌, ◌++◌, ◌==◌, string_eq,
  if◌then◌else◌,
}
use relayly.Http.{
  Request, Segment, exactly, Pattern, Routes, Answer, handled_by, moved_permanently,
  method_not_allowed, not_found, dispatch,
}
use relayly.RateLimit.{IpRateLimiter, rate_limit_middleware}
use relayly.Relay.Hub.{Server}
use relayly.Relay.Handler
use relayly.Api

-- What the libraries make of a request: its path, query, body and address, the clock, and what is
-- random.
pub record Call : Type 0 where
  pub request : Request
  pub now : ℕ
  pub host : Option String
  pub remote_addr : String
  pub upgrades : Bool
  pub device_id : String
  pub token : String
  pub name : Option String
  pub random : Option (List ℕ)
  pub uuid : String

pub data Body : Type 0 where
  status : ℕ → Body
  devices : List Api.DeviceResponse → Body
  created : Api.CreateDeviceResponse → Body
  health : Api.HealthResponse → Body
  relay_health : Handler.StatusResponse → Body
  socket : Handler.Response → Body

pub record Reply : Type 0 where
  pub headers : List (String × String)
  pub body : Body

abbrev pub plain : Body → Reply
plain body = record { headers = []; body = body }

abbrev pub with_header : String × String → Reply → Reply
with_header h r = record r { headers = h ∷ r.headers }

-- The version and the start of the process.
pub record Build : Type 0 where
  pub version : String
  pub start_at : ℕ

-- The routes of `api.New`; a deprecated route is answered with a header more.
pub data ApiRoute : Type 0 where
  list_devices create_device deprecated_create_device show_health : ApiRoute

abbrev api_pattern : String → String → Pattern
api_pattern method name = record {
  method = some method;
  segments = exactly "api" ∷ exactly "v1" ∷ exactly name ∷ [];
  subtree = false;
}

abbrev pub api_routes : Routes ApiRoute
api_routes =
    (api_pattern "GET" "devices", list_devices)
    ∷ (api_pattern "POST" "devices", create_device)
    ∷ (api_pattern "POST" "pair", deprecated_create_device)
    ∷ (api_pattern "GET" "health", show_health)
    ∷ []

abbrev json_body : {A : Type 0} → (A → Body) → Api.Reply A → Body
json_body f (Api.http_error code) = status code
json_body f (Api.json a) = f a

-- `deprecated`
unfoldable pub deprecated : (Call → Server → Reply × Server) → Call → Server → Reply × Server
deprecated next call w = let r = next call w in (with_header ("Deprecation", "true") r.0, r.1)

unfoldable pub create : Call → Server → Reply × Server
create call w =
    let r = Api.handle_create_device call.now call.random call.uuid call.name w in
    (plain (json_body created r.0), r.1)

unfoldable pub serve_api_route : Build → ApiRoute → Call → Server → Reply × Server
serve_api_route b list_devices call w =
    let r = Api.handle_list_devices w in (plain (json_body devices r.0), r.1)
serve_api_route b create_device call w = create call w
serve_api_route b deprecated_create_device call w = deprecated create call w
serve_api_route b show_health call w =
    (plain (json_body health (Api.handle_health b.version b.start_at call.now w)), w)

-- What the mux answers where it has no handler for the request.
abbrev pub routed : {H S : Type 0} → (H → S → Reply × S) → Answer H → S → Reply × S
routed serve (handled_by h) s = serve h s
routed serve moved_permanently s = (plain (status 301), s)
routed serve method_not_allowed s = (plain (status 405), s)
routed serve not_found s = (plain (status 404), s)

unfoldable pub api_mux : Build → Call → Server → Reply × Server
api_mux b call w = routed (λ h v. serve_api_route b h call v) (dispatch api_routes call.request) w

abbrev pub cors_headers : List (String × String)
cors_headers =
    ("Access-Control-Allow-Origin", "*")
    ∷ ("Access-Control-Allow-Methods", "GET, POST, OPTIONS")
    ∷ ("Access-Control-Allow-Headers", "Content-Type")
    ∷ []

-- `corsMiddleware`: a preflight request is answered here.
unfoldable pub cors_middleware : (Call → Server → Reply × Server) → Call → Server → Reply × Server
cors_middleware next call w =
    if call.request.method == "OPTIONS"
    then (record { headers = cors_headers; body = status 204 }, w)
    else (let r = next call w in (record r.0 { headers = cors_headers ++ r.0.headers }, r.1))

-- `api.New`
unfoldable pub api_handler : Build → Call → Server → Reply × Server
api_handler b = cors_middleware (api_mux b)

pub record State : Type 0 where
  pub server : Server
  pub limiter : IpRateLimiter

pub data RelayRoute : Type 0 where
  websocket relay_status api : RelayRoute

abbrev root_pattern : String → Bool → Pattern
root_pattern name subtree = record {
  method = none;
  segments = exactly name ∷ [];
  subtree = subtree;
}

-- `relayMux`
abbrev pub relay_routes : Routes RelayRoute
relay_routes =
    (root_pattern "ws" false, websocket)
    ∷ (root_pattern "health" false, relay_status)
    ∷ (root_pattern "api" true, api)
    ∷ []

abbrev connect : Call → Server → Reply × Server
connect call w =
    let r = Handler.handle_connect call.now call.upgrades call.device_id call.token w in
    (plain (socket r.0), r.1)

abbrev limited : Call → Option ℕ → State → Reply × State
limited call (some code) s = (plain (status code), s)
limited call none s = let r = connect call s.server in (r.0, record s { server = r.1 })

unfoldable pub serve_relay_route : Build → Call → RelayRoute → State → Reply × State
serve_relay_route b call websocket s =
    let l = rate_limit_middleware call.now call.host call.remote_addr s.limiter in
    limited call l.1 (record s { limiter = l.0 })
serve_relay_route b call relay_status s =
    (plain (relay_health (Handler.status_handler b.version b.start_at call.now s.server)), s)
serve_relay_route b call api s =
    let r = api_handler b call s.server in (r.0, record s { server = r.1 })

unfoldable pub serve : Build → Call → State → Reply × State
serve b call s = routed (serve_relay_route b call) (dispatch relay_routes call.request) s
