-- ===== src/Protocol.antt =====
-- src/protocol: the messages that the peers exchange, and their framing on a stream.
pub mod Dtype
pub mod Schema
pub mod Request
pub mod Response
pub mod Codec
