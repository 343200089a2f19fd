-- ===== src/Acn.antt =====
-- The ACN protocol: the messages of protocols/acn/v1_0_0/acn.pb.go and the functions of acn/utils.go.
pub mod Message
pub mod Codec
pub mod Protocol
