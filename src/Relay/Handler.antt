-- ===== src/Relay/Handler.antt =====
-- internal/relay/handler.go: the WebSocket endpoint. The limits that NewClient stores only reach
-- the socket and are left out; that the upgrade itself succeeds is an argument.
use relayly.Base.{
  ℕ, suc, ◌-◌, ◌/◌, String, Bool, false, ◌||◌, none, some, [], ◌∷◌, ◌++◌, Result, ok, err, ltb,
  ◌==◌, string_eq, nat_eq, if◌then◌else◌,
}
use mathlib.Core.Option
use relayly.Database.{Device, DbError, get_device_by_id}
use relayly.Relay.Client.{new_client}
use relayly.Relay.Hub.{Server, connected_count}
use relayly.Relay.Control.{with_db, send_welcome}

-- How the request ends: with a status, with a failed upgrade, or with a connection.
pub data Response : Type 0 where
  bad_request unauthorized upgrade_failed upgraded : Response

unfoldable pub is_expired : ℕ → Device → Bool
is_expired now device = elim device.expires_at [ none ↦ false | some t ↦ ltb t now ]

-- A client for the connection stands at the next address and waits to be registered.
unfoldable pub open_client : Device → String → Server → Server
open_client device device_id w = send_welcome w.next device (record w {
  heap = λ b.
      if b == w.next then new_client device_id (Option.get_or device.paired_with "") else w.heap b;
  next = suc w.next;
  register = w.register ++ w.next ∷ [];
})

unfoldable pub admit :
    ℕ → Bool → String → String → Result DbError Device × Server → Response × Server
admit now upgrades device_id token (err e, w) = (unauthorized, w)
admit now upgrades device_id token (ok device, w) =
    if device.device_token == token
    then (if is_expired now device
        then (unauthorized, w)
        else if upgrades
        then (upgraded, open_client device device_id w)
        else (upgrade_failed, w))
    else (unauthorized, w)

unfoldable pub handle_connect : ℕ → Bool → String → String → Server → Response × Server
handle_connect now upgrades device_id token w =
    if device_id == "" || token == ""
    then (bad_request, w)
    else admit now upgrades device_id token (with_db (get_device_by_id device_id) w)

pub record StatusResponse : Type 0 where
  pub status : String
  pub version : String
  pub uptime_seconds : ℕ
  pub connected_devices : ℕ

-- `StatusHandler`; `int64(hub.Uptime().Seconds())` of the nanoseconds since the hub's start.
unfoldable pub status_handler : String → ℕ → ℕ → Server → StatusResponse
status_handler version start_at now w = record {
  status = "ok";
  version = version;
  uptime_seconds = (now - start_at) / 1_000_000_000;
  connected_devices = connected_count w;
}
