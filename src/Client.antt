-- ===== src/Client.antt =====
-- A DHT client: dht/dhtclient/dhtclient.go.
pub mod State
pub mod Dial
pub mod Send
pub mod Route
