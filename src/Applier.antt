-- ===== src/Applier.antt =====
-- The applier (pkg/applier): what is known of each captured key, the buffer that merges changes, and
-- the drain that judges them against the copier's position.
pub mod Entry
pub mod Buffer
pub mod Snapshot
pub mod Drain
pub mod Hold
pub mod Flusher
pub mod Catchup
mod Examples
mod CycleExamples
