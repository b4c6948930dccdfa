-- ===== src/Decode.antt =====
-- The decoder of the replication stream (pkg/decode).
pub mod Lsn
pub mod Relation
pub mod Stream
pub mod Slot
mod Examples
