-- ===== src/Cli.antt =====
-- crates/cli: the commands.
pub mod Push
pub mod Kill
pub mod Attach
pub mod Paths
pub mod Files
pub mod List
pub mod Spawn
pub mod Options
pub mod Main
pub mod Command
pub mod Dispatch
