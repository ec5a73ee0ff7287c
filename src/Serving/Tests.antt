-- ===== src/Serving/Tests.antt =====
-- Requests to the relay's HTTP server, and the theorems at some of them.
use relayly.Base.{◌≡◌, refl, String, false, some, List, [], ◌∷◌, arith, eq_iff}
use relayly.Relay.Hub.{SameServer, new_hub}
use relayly.RateLimit.{new_ip_rate_limiter}
use relayly.Http.{
  find, after_segments, fits_path, fits_method, is_exact, ends_in_slash, any_method, comes_before,
  dispatch,
}
use relayly.Serving.{
  Call, Build, State, Reply, plain, status, cors_headers, serve, serve_relay_route, api_handler,
  cors_middleware, api_mux,
}
use relayly.Serving.Reach.{serve_reach}

abbrev fresh : State
fresh = record {
  server = new_hub (record { contents = []; faults = [] });
  limiter = new_ip_rate_limiter 10 60;
}

abbrev build : Build
build = record { version = "dev"; start_at = 0 }

abbrev asks : String → List String → Call
asks method path = record {
  request = record { method = method; path = path };
  now = 5;
  host = some "10.0.0.1";
  remote_addr = "10.0.0.1:4000";
  upgrades = false;
  device_id = "";
  token = "";
  name = some "laptop";
  random = some (1 ∷ 2 ∷ []);
  uuid = "a";
}

answer : String → List String → Reply
unfolding serve dispatch find after_segments fits_path fits_method is_exact ends_in_slash any_method
    comes_before serve_relay_route api_handler cors_middleware api_mux
answer method path = (serve build (asks method path) fresh).0

preflight :
    answer "OPTIONS" ("api" ∷ "v1" ∷ "devices" ∷ [])
    ≡ record { headers = cors_headers; body = status 204 }
unfolding answer
preflight = refl

wrong_method :
    answer "DELETE" ("api" ∷ "v1" ∷ "devices" ∷ [])
    ≡ record { headers = cors_headers; body = status 405 }
unfolding answer
wrong_method = refl

without_slash : answer "GET" ("api" ∷ []) ≡ plain (status 301)
unfolding answer
without_slash = refl

unknown : answer "GET" ("metrics" ∷ []) ≡ plain (status 404)
unfolding answer
unknown = refl

serve_reach_example :
    let t = (serve build (asks "GET" ("api" ∷ "v1" ∷ "devices" ∷ [])) fresh).1 in
    (t.limiter ≡ fresh.limiter) × SameServer t.server fresh.server
serve_reach_example =
    serve_reach build (asks "GET" ("api" ∷ "v1" ∷ "devices" ∷ [])) fresh (λ e. cc)
      (λ r. ground (arith, eq_iff "GET" "POST"))
