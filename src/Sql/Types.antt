-- ===== src/Sql/Types.antt =====
-- src/sql/types: values and expressions.
pub mod Value
pub mod Operators
pub mod Bounds
pub mod Order
pub mod Expression
pub mod Tests
