-- ===== src/Adapter.antt =====
-- adapter/: from a RESP3 message to a value of the type that the caller asked for.
pub mod Error
pub mod Scalar
pub mod Bounds
pub mod Containers
pub mod Dispatch
pub mod Sequences
pub mod Maps
pub mod Paths
pub mod Refusals
pub mod Caching
mod Tests
