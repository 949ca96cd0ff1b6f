-- ===== src/Sql/Planner.antt =====
-- src/sql/planner: the optimization of query plans.
pub mod Aggregate
pub mod ConstantFolding
pub mod Constants
pub mod Folded
mod Tests
