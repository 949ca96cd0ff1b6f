-- ===== src/Sql/Execution.antt =====
-- src/sql/execution: the execution of queries.
pub mod Aggregator
pub mod HashJoin
pub mod Join
mod Tests
