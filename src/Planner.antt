-- ===== src/Planner.antt =====
-- The planner (pkg/planner): which route each operation of a statement takes. Parsing is not modelled:
-- the operations are given. The safer sequences that the planner renders as SQL are parameters.
pub mod Types
pub mod Coercion
pub mod Classify
