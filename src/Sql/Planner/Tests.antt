-- ===== src/Sql/Planner/Tests.antt =====
-- src/sql/planner: the theorems at concrete expressions.
use toydb.Prelude.{◌≡◌, refl, true, some, [], ◌∷◌}
use toydb.Prelude.Int.{pos, ◌+ℤ◌, eqℤ, fits_i64}
use toydb.Error.{ok}
use toydb.Sql.Types.Value.{
  boolean, integer, checked_add, arithmetic, or_overflow, checked_add_i64, checked,
}
use toydb.Sql.Types.Operators.{equal_values, compare_values, and_values}
use toydb.Sql.Types.Expression.{
  Expression, constant, column, and, equal, add, evaluate, both, column_value,
}
use toydb.Sql.Types.Tests.{whole, same_text}
use toydb.Sql.Planner.ConstantFolding.{fold_all}
use toydb.Sql.Planner.Folded.{fold_all_lem}

-- #0 = 1 + 2 AND TRUE
abbrev condition : Expression whole
condition =
    and (equal (column 0) (add (constant (integer (pos 1))) (constant (integer (pos 2)))))
      (constant (boolean true))

condition-value :
    evaluate whole same_text (some (integer (pos 3) ∷ [])) condition ≡ ok (boolean true)
unfolding evaluate both column_value checked_add arithmetic or_overflow checked_add_i64 checked
    fits_i64 ◌+ℤ◌ equal_values compare_values and_values eqℤ
condition-value = refl

fold_all_lem_example :
    (e : Expression whole) × (fold_all whole same_text condition ≡ ok e)
    × (evaluate whole same_text (some (integer (pos 3) ∷ [])) e ≡ ok (boolean true))
fold_all_lem_example =
    fold_all_lem whole same_text (some (integer (pos 3) ∷ [])) condition (boolean true)
      condition-value
