-- ===== src/Sql/Planner/Aggregate.antt =====
-- src/sql/planner/plan.rs: the aggregate functions of a plan.
use toydb.Sql.Types.Value.{Floats}
use toydb.Sql.Types.Expression.{Expression}

module _ (floats : Floats) where
  pub data Aggregate : Type 0 where
    average count max min sum : Expression floats → Aggregate

  -- The expression of which the values are aggregated.
  unfoldable pub expr : Aggregate → Expression floats
  expr (average e) = e
  expr (count e) = e
  expr (max e) = e
  expr (min e) = e
  expr (sum e) = e
