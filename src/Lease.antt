-- ===== src/Lease.antt =====
-- The package lease.
pub mod Frame
pub mod Session
pub mod Agent
pub mod Serialize
pub mod Wire
mod Tests
