-- ===== src/Tests.antt =====
-- The theorems of this library applied at concrete inputs.
pub mod Stalls
pub mod Readers
pub mod Streams
pub mod Router
pub mod Batches
pub mod Clients
pub mod Servers
pub mod Wire
