-- ===== src/Sql.antt =====
-- src/sql: values, expressions and the execution of queries.
pub mod Types
pub mod Planner
pub mod Execution
