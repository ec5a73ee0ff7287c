-- ===== src/Examples.antt =====
-- examples/go: the programs that show the client library at work.
pub mod Registering
pub mod Expiring
pub mod Identity
pub mod Clipboard
pub mod Resting
pub mod Chat
mod Tests
