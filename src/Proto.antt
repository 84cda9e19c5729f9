-- ===== src/Proto.antt =====
-- crates/server/src/proto.rs: the control-line parser.
pub mod Types
pub mod Parts
pub mod Size
pub mod Args
pub mod Line
pub mod Feed
