-- ===== src/Peer.antt =====
-- The routing of dht/dhtpeer/dhtpeer.go.
pub mod State
pub mod Records
pub mod Streams
pub mod Requests
pub mod Route
pub mod Announce
pub mod Relay
pub mod Delegate
pub mod Interfaces
pub mod Metrics
