-- ===== src/Sdk.antt =====
-- sdk/go: the client library. PeerStore, Noise, Peer, Client, Frames, Backoff, Dialing, Calls, Closing,
-- Errors and Keys define the model of peerstore.go, noise.go, peer.go, client.go with options.go and
-- pairing.go, errors.go and crypto.go; the other modules prove.
pub mod PeerStore
pub mod Noise
pub mod Peer
pub mod Client
pub mod Frames
pub mod Backoff
pub mod Pins
pub mod Sessions
pub mod Trust
pub mod Agreement
pub mod Handshake
pub mod Driving
pub mod Closing
pub mod Errors
pub mod Dialing
pub mod Welcome
pub mod Calls
pub mod Races
pub mod Sharing
pub mod Waiters
pub mod Writing
pub mod Owed
pub mod Reading
pub mod Once
pub mod Keys
pub mod KeyFiles
pub mod Upkeep
pub mod Resolving
pub mod Invariant
pub mod Meanwhile
pub mod Calling
pub mod Amid
mod Tests
mod KeyTests
pub mod Unary64
mod WriterTests
