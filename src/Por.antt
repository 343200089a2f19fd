-- ===== src/Por.antt =====
-- Proofs of representation: dht/dhtnode/utils.go and the ledgers of utils/utils.go.
pub mod Crypto
pub mod Ledger
pub mod Check
pub mod PeerKeys
pub mod Digits
pub mod Signing
