-- ===== src/Proto.antt =====
-- crates/proto: the framing of control messages from a client to the daemon.
pub mod Buffer
pub mod ListBytes
pub mod Message
pub mod Codec
