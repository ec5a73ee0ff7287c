-- ===== src/Api.antt =====
-- internal/api/handler.go: the REST API. What encoding/json makes of a request's body is an
-- argument, and so are the random bytes, the UUID and the clock.
pub mod Registration
mod Tests
use relayly.Base.{
  ℕ, ◌+◌, ◌-◌, ◌/◌, String, Option, none, some, List, [], ◌∷◌, map, length, Result, ok, err, ◌==◌,
  string_eq, if◌then◌else◌,
}
use relayly.Pairing.{new_device}
use relayly.Database.{Device, DbError, create_device, list_devices}
use relayly.Relay.Hub.{Server, connected_count}
use relayly.Relay.Control.{with_db}

-- `http.Error` with a status, or `writeJSON` with status 200.
pub data Reply (A : Type 0) : Type 0 where
  http_error : ℕ → Reply A
  json : A → Reply A

pub record DeviceResponse : Type 0 where
  pub id : String
  pub name : String
  pub paired_with : Option String
  pub created_at : ℕ
  pub last_seen : Option ℕ

unfoldable pub device_response : Device → DeviceResponse
device_response d = record {
  id = d.id;
  name = d.name;
  paired_with = d.paired_with;
  created_at = d.created_at;
  last_seen = d.last_seen;
}

abbrev listed : Result DbError (List Device) × Server → Reply (List DeviceResponse) × Server
listed (err e, w) = (http_error 500, w)
listed (ok devices, w) = (json (map device_response devices), w)

unfoldable pub handle_list_devices : Server → Reply (List DeviceResponse) × Server
handle_list_devices w = listed (with_db list_devices w)

pub record CreateDeviceResponse : Type 0 where
  pub device_id : String
  pub device_token : String
  pub expires_at : ℕ

abbrev persisted :
    CreateDeviceResponse → Result DbError (Unit {0}) × Server → Reply CreateDeviceResponse × Server
persisted response (err e, w) = (http_error 500, w)
persisted response (ok u, w) = (json response, w)

unfoldable pub register_device :
    ℕ → Option (List ℕ) → String → String → Server → Reply CreateDeviceResponse × Server
register_device now random uuid name w = elim (new_device now random uuid name) [
  | none ↦ (http_error 500, w)
  | some (d, expires_at) ↦
      persisted
        (record { device_id = d.id; device_token = d.device_token; expires_at = expires_at })
        (with_db (create_device d) w)
]

-- The body's `name`, or `none` where the body is not the JSON that it should be.
unfoldable pub handle_create_device :
    ℕ → Option (List ℕ) → String → Option String → Server → Reply CreateDeviceResponse × Server
handle_create_device now random uuid none w = (http_error 400, w)
handle_create_device now random uuid (some name) w =
    if name == "" then (http_error 400, w) else register_device now random uuid name w

pub record HealthResponse : Type 0 where
  pub status : String
  pub version : String
  pub uptime_seconds : ℕ
  pub connected_devices : ℕ

-- `int64(uptime.Seconds())` of the nanoseconds since the start.
unfoldable pub handle_health : String → ℕ → ℕ → Server → Reply HealthResponse
handle_health version start_at now w = json (record {
  status = "ok";
  version = version;
  uptime_seconds = (now - start_at) / 1_000_000_000;
  connected_devices = connected_count w;
})
