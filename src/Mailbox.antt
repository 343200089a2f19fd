-- ===== src/Mailbox.antt =====
-- The mailbox service of dht/dhtpeer/mailbox.go: agents that poll their envelopes over http.
pub mod State
pub mod Handlers
