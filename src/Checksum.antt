-- ===== src/Checksum.antt =====
-- The checksum (pkg/checksum): how a live pass compares the source with the shadow while both move, and when
-- it vouches for the shadow.
pub mod Settle
pub mod Pass
pub mod Repair
pub mod Live
mod Examples
