-- ===== src/Lib.antt =====
-- Relayly, a WebSocket relay for the devices of one user: the relay itself (internal/) and its Go
-- client (sdk/go).
--
-- A device registers once and connects with its token. Two devices are linked by a code of six
-- digits that one requests and the other redeems; from then on the relay forwards binary
-- envelopes between them without reading them. The clients run a Noise handshake through those
-- envelopes and pin each other's static key.
--
-- The parts, and the files that model them:
-- - Sql: the use of database/sql, one statement at a time, each of which the driver may fail.
-- - Database: internal/database/pairing.go, the devices table. `create_device`, `pair_devices`,
--   `unpair_device`, `set_static_key_if_unset`, `delete_device` and the others are the methods of
--   the same names; a row that may be NULL is an `Option`. `Database.Directory` is what the table
--   promises, with the steps that it may take.
-- - Migrations: internal/database/db.go, the schema and the scripts that `Open` runs on it.
-- - Pairing: internal/pairing/pairing.go, tokens, devices and codes from given random bytes.
-- - PairCodes: internal/relay/paircodes.go, `put` and `take`.
-- - RateLimit: internal/relay/ratelimit.go, `allow`, `allow_ip`, `cleanup`, the middleware and
--   the environment's numbers.
-- - Relay: internal/relay. `Relay.Client` is a connection with its queue and its pump
--   (client.go), `Relay.Hub` the registry and `Route` (hub.go), `Relay.Control` the JSON messages
--   (control.go), `Relay.Handler` the endpoint (handler.go). `Relay.Events.step` takes one event
--   of any goroutine, so that runs of events are the interleavings. Connections are addresses in
--   a heap, since the registry, the channels and the handlers share them.
-- - Sdk: sdk/go. `Sdk.PeerStore` is peerstore.go, `Sdk.Noise` the session of noise.go over a
--   Noise library that is a parameter, `Sdk.Peer` peer.go; of client.go, `Sdk.Client` and
--   `Sdk.Frames` are what readLoop does, `Sdk.Backoff` the reconnecting, `Sdk.Dialing` `Connect`
--   and `dial`, `Sdk.Calls` the calls that wait, `Sdk.Closing` `Close`, and `Sdk.Writing`
--   writeLoop and pingLoop. `Sdk.Keys` is the key files of crypto.go, `Sdk.Errors` errors.go.
-- - EndToEnd: one message from a client over the relay to the other client.
-- - Api, Admin, Cli, Config: internal/api/handler.go, internal/admin/server.go, internal/cli and
--   internal/config/config.go, over the same server and database. `Cli.Starting.run_start` is
--   `relayly start` as the list of what it opens, starts, stops and closes.
-- - Http, Serving: net/http's mux as far as the routes use it, and the relay's HTTP server over
--   the hub, the rate limiter and the REST API (internal/cli/start.go, internal/api/server.go);
--   `Admin.Routes` is the admin server.
-- - Interop: interop/harness, its run and the wait for its server, the proxy, the waiting for
--   events, the scenarios as scripts over the clients under test, and the matrix; `Interop.Shim` is
--   interop/clients/go/main.go.
-- - Examples: examples/go, the registration that the examples share (device.go), the start of
--   clipboard-sync and chat up to the connection, the two loops of clipboard-sync, and the pairing
--   and the loop of chat.
-- - Base: what they share, with Go's maps as association lists.
--
-- Each frame, call, tick and transaction is one step. Where the code lets others in between, the
-- parts stand in modules of their own: the statements of a deletion in `Database.Interleaved`, the
-- halves of the limiter's cleanup in `RateLimit.Races`, and a handshake message with the calls in
-- its middle in `Sdk.Meanwhile`. The loops of clipboard-sync take their turns in any order.
--
-- The relay and the clients meet in the messages, whose record `ControlMessage` both use, and in
-- the envelopes, which `EndToEnd` carries from one client to the other.
--
-- Bounds. `letters_of` has eleven rounds, enough for the 64 bits of a chunk, since 58 to the
-- eleventh exceeds 2 to the 64th; `encode_chunks` has as many rounds as there are bytes. A send
-- queue holds 256 frames. The harness waits for its server in 201 turns, one for each 50 ms of the
-- ten seconds and one more. Times are natural numbers of nanoseconds, there of milliseconds.
--
-- Not modelled: JSON, sockets and their deadlines, the tickers' periods, logging, the texts of
-- HTTP errors, the pages' templates, what is printed, the building of the interop clients, the
-- examples that only call the client (basic and pair-and-send), and the SDKs in other languages.
-- SQL stands in the form of the functions that its statements are; a script runs one statement
-- after the other. The clock, random bytes, UUIDs, parsed messages, what a library makes of a URL
-- or of the configuration, the order of Go's walk over a map, and whether the disk, the driver
-- and the network work are arguments. The Noise library and base64 are parameters with records of
-- laws. A negative `MaxReconnectDelay` is left out. The channels `Register` and `Unregister` are
-- unbounded.
pub mod Base
pub mod Sql
pub mod Database
pub mod Migrations
pub mod PairCodes
pub mod RateLimit
pub mod Pairing
pub mod Relay
pub mod Http
pub mod Api
pub mod Serving
pub mod Admin
pub mod Cli
pub mod Config
pub mod Sdk
pub mod EndToEnd
pub mod Interop
pub mod Examples
