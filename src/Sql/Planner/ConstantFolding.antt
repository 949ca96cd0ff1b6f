-- ===== src/Sql/Planner/ConstantFolding.antt =====
-- src/sql/planner/optimizer.rs: the folding of constants in the expressions of a plan.
use toydb.Prelude.{Bool, true, false, none, if◌then◌else◌}
use toydb.Error.{Result, ok, ◌>>=◌}
use toydb.Encoding.Bytes.{Bytes}
use toydb.Sql.Types.Value.{Floats, boolean}
use toydb.Sql.Types.Expression.{
  Expression, constant, column, and, or, evaluate, contains, transform, size,
}

module _ (floats : Floats) (is_match : Bytes → Bytes → Result Bool) where
  abbrev pub is_column : Expression floats → Bool
  is_column (column i) = true
  is_column _ = false

  -- A constant side decides an AND or an OR, or is redundant.
  unfoldable pub fold_logic : Expression floats → Expression floats
  fold_logic (and (constant (boolean false)) b) = constant (boolean false)
  fold_logic (and a (constant (boolean false))) = constant (boolean false)
  fold_logic (and (constant (boolean true)) b) = b
  fold_logic (and a (constant (boolean true))) = a
  fold_logic (or (constant (boolean true)) b) = constant (boolean true)
  fold_logic (or a (constant (boolean true))) = constant (boolean true)
  fold_logic (or (constant (boolean false)) b) = b
  fold_logic (or a (constant (boolean false))) = a
  fold_logic e = e

  -- Without a column the expression is evaluated.
  unfoldable pub fold : Expression floats → Result (Expression floats)
  fold e =
      if contains floats is_column e
      then ok (fold_logic e)
      else evaluate floats is_match none e >>= λ v. ok (constant v)

  -- What `optimize` does with each expression of a plan: the children are folded first.
  unfoldable pub fold_all : Expression floats → Result (Expression floats)
  fold_all e = transform floats (size floats e) ok fold e
