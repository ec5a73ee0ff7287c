-- ===== src/Relay.antt =====
-- internal/relay: the WebSocket hub. Client, Hub, Control, Handler and Events define the model of
-- client.go, hub.go, control.go, handler.go and of the order in which their goroutines act; the
-- other modules prove.
pub mod Client
pub mod Hub
pub mod Control
pub mod Handler
pub mod Events
pub mod Quiet
pub mod Invariant
pub mod Routing
pub mod Reconnect
pub mod Fifo
pub mod Access
pub mod Lifetime
pub mod Peers
pub mod Linking
pub mod Unlinking
mod Tests
