-- ===== src/Client.antt =====
-- crates/client: the attaching side of a connection.
pub mod Attach
pub mod RawMode
pub mod Resize
