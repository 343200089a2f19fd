-- ===== src/Wire.antt =====
-- Bytes on a connection: the framing of utils/utils.go and aea/pipe.go, over connections whose
-- deliveries the environment chooses.
pub mod Word
pub mod Conn
pub mod Buffered
pub mod Frame
pub mod Pipe
