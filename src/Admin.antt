-- ===== src/Admin.antt =====
-- internal/admin/server.go: the handlers of the admin pages. A page is the name of its template
-- with the data that it is given; that the templates render is taken for granted.
pub mod Pairing
pub mod Routes
use relayly.Base.{
  ℕ, ◌+◌, ◌-◌, ◌/◌, ◌*◌, String, Bool, true, ◌||◌, Option, none, some, List, [], ◌∷◌, insert,
  Result, ok, err, ◌==◌, string_eq, if◌then◌else◌,
}
use relayly.Database.{Device, DbError, list_devices, delete_device, pair_devices}
use relayly.Relay.Hub.{Server, connected_devices, connected_count}
use relayly.Relay.Control.{with_db}

pub record Page : Type 0 where
  pub template : String
  pub devices : List Device
  pub online : List (String × Bool)
  pub version : Option String
  pub connected : Option ℕ

pub data Reply : Type 0 where
  http_error : ℕ → Reply
  page : Page → Reply
  json_devices : List Device → Reply
  deleted : Reply

-- `onlineSet`: a map, in which an id stands once.
unfoldable pub online_set : List String → List (String × Bool)
online_set [] = []
online_set (id ∷ ids) = insert id true (online_set ids)

-- The pages give the list of devices and who is online; the rest is one's own.
abbrev pub shown : (Server → Page) → Result DbError (List Device) × Server → Reply × Server
shown blank (err e, w) = (http_error 500, w)
shown blank (ok devices, w) =
    (page (record (blank w) { devices = devices; online = online_set (connected_devices w) }), w)

abbrev empty_page : String → Option String → Option ℕ → Page
empty_page template version connected = record {
  template = template;
  devices = [];
  online = [];
  version = version;
  connected = connected;
}

unfoldable pub handle_index : String → Server → Reply × Server
handle_index version w =
    shown (λ v. empty_page "index.html" (some version) (some (connected_count v)))
      (with_db list_devices w)

unfoldable pub handle_devices : String → Server → Reply × Server
handle_devices version w =
    shown (λ v. empty_page "devices.html" (some version) none) (with_db list_devices w)

unfoldable pub handle_devices_partial : Server → Reply × Server
handle_devices_partial w =
    shown (λ v. empty_page "devices_table" none none) (with_db list_devices w)

abbrev answered_deletion : Result DbError (Unit {0}) × Server → Reply × Server
answered_deletion (err e, w) = (http_error 500, w)
answered_deletion (ok u, w) = (deleted, w)

unfoldable pub handle_delete_device : String → Server → Reply × Server
handle_delete_device id w = answered_deletion (with_db (delete_device id) w)

abbrev pub answered_pairing : Result DbError (Unit {0}) × Server → Reply × Server
answered_pairing (err e, w) = (http_error 500, w)
answered_pairing (ok u, w) = handle_devices_partial w

-- The form's two ids, or `none` where it does not parse. The order of Go's walk over the two links
-- is `swapped`.
unfoldable pub handle_pair_devices : Bool → Option (String × String) → Server → Reply × Server
handle_pair_devices swapped none w = (http_error 400, w)
handle_pair_devices swapped (some (id1, id2)) w =
    if id1 == "" || id2 == "" || id1 == id2
    then (http_error 400, w)
    else answered_pairing (with_db (pair_devices swapped id1 id2) w)

abbrev answered_list : Result DbError (List Device) × Server → Reply × Server
answered_list (err e, w) = (http_error 500, w)
answered_list (ok devices, w) = (json_devices devices, w)

unfoldable pub api_devices : Server → Reply × Server
api_devices w = answered_list (with_db list_devices w)

pub record StatusResponse : Type 0 where
  pub status : String
  pub version : String
  pub connected : ℕ
  pub uptime : ℕ

-- `uptime` in nanoseconds, of which Go prints the text, rounded to seconds.
unfoldable pub api_status : String → ℕ → ℕ → Server → StatusResponse
api_status version start_at now w = record {
  status = "ok";
  version = version;
  connected = connected_count w;
  uptime = (now - start_at + 500_000_000) / 1_000_000_000 * 1_000_000_000;
}
