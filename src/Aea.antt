-- ===== src/Aea.antt =====
-- The pipe between the node and its agent: aea/utils.go and the send path of aea/api.go.
pub mod Handle
pub mod Api
pub mod Config
pub mod EnvelopeConn
