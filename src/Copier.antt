-- ===== src/Copier.antt =====
-- The chunk copier (pkg/copier): chunk ranges and frontiers, the chunker, the ledger of claimed and
-- landed chunks, and the position by which captured changes are judged.
pub mod Types
pub mod Cover
pub mod Ledger
pub mod Options
pub mod RunOptions
pub mod Sizing
pub mod Chunker
pub mod Run
pub mod Retry
pub mod Position
mod Examples
mod RetryExamples
