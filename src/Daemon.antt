-- ===== src/Daemon.antt =====
-- crates/daemon: the daemon's loop, its clients and its shutdown.
pub mod Signals
pub mod Client
pub mod Age
pub mod Loop
pub mod Pty
pub mod Setup
pub mod System
