-- ===== src/Client.antt =====
-- crates/server/src/client.rs: connections, their outbound queues, and the two tasks of each.
pub mod Outbox
pub mod Options
pub mod World
pub mod Route
pub mod Handle
pub mod Reader
pub mod Writer
pub mod Stall
pub mod Spawn
