-- ===== src/Routing.antt =====
-- crates/server/src/routing.rs: the subscription registry and the delivery decision.
pub mod Registry
pub mod Frame
