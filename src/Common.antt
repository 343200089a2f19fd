-- ===== src/Common.antt =====
-- The stream handlers that a peer and a client share: dht/common/handlers.go.
pub mod Line
pub mod Proof
pub mod Handlers
