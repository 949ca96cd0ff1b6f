-- ===== src/Sql/Planner/Constants.antt =====
-- src/sql/planner/optimizer.rs: expressions without columns, and logic with a constant side.
use toydb.Prelude.{◌≡◌, refl, Bool, true, false, ◌&&◌, Option, none, &&-both}
use toydb.Error.{Result, ok}
use toydb.Encoding.Bytes.{Bytes}
use toydb.Sql.Types.Value.{Floats, Value, null, boolean}
use toydb.Sql.Types.Operators.{and_values, or_values}
use toydb.Sql.Types.Expression.{
  Row, Expression, constant, column, and, or, equal, greater_than, less_than, add, divide,
  exponentiate, multiply, remainder, subtract, like, not, factorial, identity, negate, square_root,
  is, both, evaluate, walk, opposite,
}
use toydb.Sql.Planner.ConstantFolding.{is_column}

module _ (floats : Floats) (is_match : Bytes → Bytes → Result Bool) where
  abbrev E : Type 0
  E = Expression floats

  abbrev V : Type 0
  V = Value floats

  abbrev pub no_column : E → Bool
  no_column e = opposite floats (is_column floats is_match e)

  without :
      (a b : E)
      → (walk floats no_column a && walk floats no_column b) ≡ true
      → (walk floats no_column a ≡ true) × (walk floats no_column b ≡ true)
  without a b h = &&-both (walk floats no_column a) (walk floats no_column b) h

  -- Without columns the row does not matter.
  pub evaluate-none :
      (row : Option (Row floats)) (e : E)
      → walk floats no_column e ≡ true
      → evaluate floats is_match row e ≡ evaluate floats is_match none e
  unfolding walk evaluate
  evaluate-none row (constant v) h = refl
  evaluate-none row (column i) h = absurd (cc h)
  evaluate-none row (and a b) h =
      rw (evaluate-none row a (without a b h).0, evaluate-none row b (without a b h).1) refl
  evaluate-none row (or a b) h =
      rw (evaluate-none row a (without a b h).0, evaluate-none row b (without a b h).1) refl
  evaluate-none row (equal a b) h =
      rw (evaluate-none row a (without a b h).0, evaluate-none row b (without a b h).1) refl
  evaluate-none row (greater_than a b) h =
      rw (evaluate-none row a (without a b h).0, evaluate-none row b (without a b h).1) refl
  evaluate-none row (less_than a b) h =
      rw (evaluate-none row a (without a b h).0, evaluate-none row b (without a b h).1) refl
  evaluate-none row (add a b) h =
      rw (evaluate-none row a (without a b h).0, evaluate-none row b (without a b h).1) refl
  evaluate-none row (divide a b) h =
      rw (evaluate-none row a (without a b h).0, evaluate-none row b (without a b h).1) refl
  evaluate-none row (exponentiate a b) h =
      rw (evaluate-none row a (without a b h).0, evaluate-none row b (without a b h).1) refl
  evaluate-none row (multiply a b) h =
      rw (evaluate-none row a (without a b h).0, evaluate-none row b (without a b h).1) refl
  evaluate-none row (remainder a b) h =
      rw (evaluate-none row a (without a b h).0, evaluate-none row b (without a b h).1) refl
  evaluate-none row (subtract a b) h =
      rw (evaluate-none row a (without a b h).0, evaluate-none row b (without a b h).1) refl
  evaluate-none row (like a b) h =
      rw (evaluate-none row a (without a b h).0, evaluate-none row b (without a b h).1) refl
  evaluate-none row (not a) h = rw (evaluate-none row a h) refl
  evaluate-none row (factorial a) h = rw (evaluate-none row a h) refl
  evaluate-none row (identity a) h = rw (evaluate-none row a h) refl
  evaluate-none row (negate a) h = rw (evaluate-none row a h) refl
  evaluate-none row (square_root a) h = rw (evaluate-none row a h) refl
  evaluate-none row (is a v) h = rw (evaluate-none row a h) refl

  pub false_and :
      (r : Result V) (v : V)
      → both floats (and_values floats) (ok (boolean false)) r ≡ ok v
      → ok (boolean false) ≡ ok v
  unfolding both and_values
  false_and (ok (boolean true)) v h = h
  false_and (ok (boolean false)) v h = h
  false_and (ok null) v h = h
  false_and _ v h = absurd (cc h)

  pub and_false :
      (r : Result V) (v : V)
      → both floats (and_values floats) r (ok (boolean false)) ≡ ok v
      → ok (boolean false) ≡ ok v
  unfolding both and_values
  and_false (ok (boolean true)) v h = h
  and_false (ok (boolean false)) v h = h
  and_false (ok null) v h = h
  and_false _ v h = absurd (cc h)

  pub true_and :
      (r : Result V) (v : V)
      → both floats (and_values floats) (ok (boolean true)) r ≡ ok v
      → r ≡ ok v
  unfolding both and_values
  true_and (ok (boolean true)) v h = h
  true_and (ok (boolean false)) v h = h
  true_and (ok null) v h = h
  true_and _ v h = absurd (cc h)

  pub and_true :
      (r : Result V) (v : V)
      → both floats (and_values floats) r (ok (boolean true)) ≡ ok v
      → r ≡ ok v
  unfolding both and_values
  and_true (ok (boolean true)) v h = h
  and_true (ok (boolean false)) v h = h
  and_true (ok null) v h = h
  and_true _ v h = absurd (cc h)

  pub true_or :
      (r : Result V) (v : V)
      → both floats (or_values floats) (ok (boolean true)) r ≡ ok v
      → ok (boolean true) ≡ ok v
  unfolding both or_values
  true_or (ok (boolean true)) v h = h
  true_or (ok (boolean false)) v h = h
  true_or (ok null) v h = h
  true_or _ v h = absurd (cc h)

  pub or_true :
      (r : Result V) (v : V)
      → both floats (or_values floats) r (ok (boolean true)) ≡ ok v
      → ok (boolean true) ≡ ok v
  unfolding both or_values
  or_true (ok (boolean true)) v h = h
  or_true (ok (boolean false)) v h = h
  or_true (ok null) v h = h
  or_true _ v h = absurd (cc h)

  pub false_or :
      (r : Result V) (v : V)
      → both floats (or_values floats) (ok (boolean false)) r ≡ ok v
      → r ≡ ok v
  unfolding both or_values
  false_or (ok (boolean true)) v h = h
  false_or (ok (boolean false)) v h = h
  false_or (ok null) v h = h
  false_or _ v h = absurd (cc h)

  pub or_false :
      (r : Result V) (v : V)
      → both floats (or_values floats) r (ok (boolean false)) ≡ ok v
      → r ≡ ok v
  unfolding both or_values
  or_false (ok (boolean true)) v h = h
  or_false (ok (boolean false)) v h = h
  or_false (ok null) v h = h
  or_false _ v h = absurd (cc h)
