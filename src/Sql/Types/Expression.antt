-- ===== src/Sql/Types/Expression.antt =====
-- src/sql/types/expression.rs: expressions, their evaluation and their transformations.
pub mod Conjuncts
pub mod Fits
pub mod Lookup
pub mod Meaning
pub mod Normal
pub mod Transform
use toydb.Prelude.{
  ℕ, zero, suc, ◌+◌, ◌≡◌, Bool, true, false, ◌&&◌, Option, none, some, List, [], ◌∷◌, ◌++◌, ◌==◌,
  if◌then◌else◌, get_elem?,
}
use toydb.Error.{Result, ok, err, panic, or_panic, ◌>>=◌}
use toydb.Encoding.Bytes.{Bytes}
use toydb.Sql.Types.Value.{
  Floats, Value, null, boolean, float, is_undefined, checked_add, checked_sub, checked_mul,
  checked_div, checked_rem, checked_pow,
}
use toydb.Sql.Types.Operators.{
  and_values, or_values, not_value, equal_values, greater_than_values, less_than_values, is_null,
  is_nan_value, factorial_value, identity_value, negate_value, square_root_value, like_values,
}

module _ (floats : Floats) where
  abbrev pub Row : Type 0
  Row = List (Value floats)

  pub data Expression : Type 0 where
    constant : Value floats → Expression
    column : ℕ → Expression
    and or equal greater_than less_than add divide exponentiate multiply remainder subtract like :
        Expression → Expression → Expression
    not factorial identity negate square_root : Expression → Expression
    is : Expression → Value floats → Expression

  abbrev pub opposite : Bool → Bool
  opposite true = false
  opposite false = true

  -- The value of a column; without a row, or with an index out of range, the code panics.
  unfoldable pub column_value : Option Row → ℕ → Result (Value floats)
  column_value none i = panic
  column_value (some row) i = or_panic (get_elem? row i)

  unfoldable pub is_result : Value floats → Result (Value floats) → Result (Value floats)
  is_result null result = result >>= λ v. ok (boolean (is_null floats v))
  is_result (float f) result = if floats.is_nan f then result >>= is_nan_value floats else panic
  is_result _ result = panic

  unfoldable pub both :
      (Value floats → Value floats → Result (Value floats))
      → Result (Value floats)
      → Result (Value floats)
      → Result (Value floats)
  both op lhs rhs = lhs >>= λ a. rhs >>= op a

  -- `evaluate`, with the matching of LIKE as a parameter.
  module _ (is_match : Bytes → Bytes → Result Bool) where
    unfoldable pub evaluate : Option Row → Expression → Result (Value floats)
    evaluate row (constant v) = ok v
    evaluate row (column i) = column_value row i
    evaluate row (and a b) = both (and_values floats) (evaluate row a) (evaluate row b)
    evaluate row (or a b) = both (or_values floats) (evaluate row a) (evaluate row b)
    evaluate row (equal a b) = both (equal_values floats) (evaluate row a) (evaluate row b)
    evaluate row (greater_than a b) =
        both (greater_than_values floats) (evaluate row a) (evaluate row b)
    evaluate row (less_than a b) = both (less_than_values floats) (evaluate row a) (evaluate row b)
    evaluate row (add a b) = both (checked_add floats) (evaluate row a) (evaluate row b)
    evaluate row (divide a b) = both (checked_div floats) (evaluate row a) (evaluate row b)
    evaluate row (exponentiate a b) = both (checked_pow floats) (evaluate row a) (evaluate row b)
    evaluate row (multiply a b) = both (checked_mul floats) (evaluate row a) (evaluate row b)
    evaluate row (remainder a b) = both (checked_rem floats) (evaluate row a) (evaluate row b)
    evaluate row (subtract a b) = both (checked_sub floats) (evaluate row a) (evaluate row b)
    evaluate row (like a b) = both (like_values floats is_match) (evaluate row a) (evaluate row b)
    evaluate row (not a) = evaluate row a >>= not_value floats
    evaluate row (factorial a) = evaluate row a >>= factorial_value floats
    evaluate row (identity a) = evaluate row a >>= identity_value floats
    evaluate row (negate a) = evaluate row a >>= negate_value floats
    evaluate row (square_root a) = evaluate row a >>= square_root_value floats
    evaluate row (is a v) = is_result v (evaluate row a)

  unfoldable pub walk : (Expression → Bool) → Expression → Bool
  walk visitor (constant v) = visitor (constant v)
  walk visitor (column i) = visitor (column i)
  walk visitor (and a b) = visitor (and a b) && walk visitor a && walk visitor b
  walk visitor (or a b) = visitor (or a b) && walk visitor a && walk visitor b
  walk visitor (equal a b) = visitor (equal a b) && walk visitor a && walk visitor b
  walk visitor (greater_than a b) = visitor (greater_than a b) && walk visitor a && walk visitor b
  walk visitor (less_than a b) = visitor (less_than a b) && walk visitor a && walk visitor b
  walk visitor (add a b) = visitor (add a b) && walk visitor a && walk visitor b
  walk visitor (divide a b) = visitor (divide a b) && walk visitor a && walk visitor b
  walk visitor (exponentiate a b) = visitor (exponentiate a b) && walk visitor a && walk visitor b
  walk visitor (multiply a b) = visitor (multiply a b) && walk visitor a && walk visitor b
  walk visitor (remainder a b) = visitor (remainder a b) && walk visitor a && walk visitor b
  walk visitor (subtract a b) = visitor (subtract a b) && walk visitor a && walk visitor b
  walk visitor (like a b) = visitor (like a b) && walk visitor a && walk visitor b
  walk visitor (not a) = visitor (not a) && walk visitor a
  walk visitor (factorial a) = visitor (factorial a) && walk visitor a
  walk visitor (identity a) = visitor (identity a) && walk visitor a
  walk visitor (negate a) = visitor (negate a) && walk visitor a
  walk visitor (square_root a) = visitor (square_root a) && walk visitor a
  walk visitor (is a v) = visitor (is a v) && walk visitor a

  unfoldable pub contains : (Expression → Bool) → Expression → Bool
  contains visitor e = opposite (walk (λ e. opposite (visitor e)) e)

  -- Transforms the children of an expression, from left to right.
  unfoldable pub descend : (Expression → Result Expression) → Expression → Result Expression
  descend xform (constant v) = ok (constant v)
  descend xform (column i) = ok (column i)
  descend xform (and a b) = xform a >>= λ lhs. xform b >>= λ rhs. ok (and lhs rhs)
  descend xform (or a b) = xform a >>= λ lhs. xform b >>= λ rhs. ok (or lhs rhs)
  descend xform (equal a b) = xform a >>= λ lhs. xform b >>= λ rhs. ok (equal lhs rhs)
  descend xform (greater_than a b) = xform a >>= λ lhs. xform b >>= λ rhs. ok (greater_than lhs rhs)
  descend xform (less_than a b) = xform a >>= λ lhs. xform b >>= λ rhs. ok (less_than lhs rhs)
  descend xform (add a b) = xform a >>= λ lhs. xform b >>= λ rhs. ok (add lhs rhs)
  descend xform (divide a b) = xform a >>= λ lhs. xform b >>= λ rhs. ok (divide lhs rhs)
  descend xform (exponentiate a b) = xform a >>= λ lhs. xform b >>= λ rhs. ok (exponentiate lhs rhs)
  descend xform (multiply a b) = xform a >>= λ lhs. xform b >>= λ rhs. ok (multiply lhs rhs)
  descend xform (remainder a b) = xform a >>= λ lhs. xform b >>= λ rhs. ok (remainder lhs rhs)
  descend xform (subtract a b) = xform a >>= λ lhs. xform b >>= λ rhs. ok (subtract lhs rhs)
  descend xform (like a b) = xform a >>= λ lhs. xform b >>= λ rhs. ok (like lhs rhs)
  descend xform (not a) = xform a >>= λ inner. ok (not inner)
  descend xform (factorial a) = xform a >>= λ inner. ok (factorial inner)
  descend xform (identity a) = xform a >>= λ inner. ok (identity inner)
  descend xform (negate a) = xform a >>= λ inner. ok (negate inner)
  descend xform (square_root a) = xform a >>= λ inner. ok (square_root inner)
  descend xform (is a v) = xform a >>= λ inner. ok (is inner v)

  -- `transform`, in at most so many levels; the code has no limit.
  unfoldable pub transform :
      ℕ
      → (Expression → Result Expression)
      → (Expression → Result Expression)
      → Expression
      → Result Expression
  transform zero before after e = panic
  transform (suc levels) before after e =
      before e >>= λ e. descend (transform levels before after) e >>= after

  -- The number of nodes, which bounds the levels.
  unfoldable pub size : Expression → ℕ
  size (constant v) = 1
  size (column i) = 1
  size (and a b) = size a + size b + 1
  size (or a b) = size a + size b + 1
  size (equal a b) = size a + size b + 1
  size (greater_than a b) = size a + size b + 1
  size (less_than a b) = size a + size b + 1
  size (add a b) = size a + size b + 1
  size (divide a b) = size a + size b + 1
  size (exponentiate a b) = size a + size b + 1
  size (multiply a b) = size a + size b + 1
  size (remainder a b) = size a + size b + 1
  size (subtract a b) = size a + size b + 1
  size (like a b) = size a + size b + 1
  size (not a) = size a + 1
  size (factorial a) = size a + 1
  size (identity a) = size a + 1
  size (negate a) = size a + 1
  size (square_root a) = size a + 1
  size (is a v) = size a + 1

  abbrev unwrap : {A : Type 0} → Result A → Result A
  unwrap (ok a) = ok a
  unwrap (err _) = panic
  unwrap panic = panic

  -- De Morgan's laws and the double negation.
  unfoldable pub push_not : Expression → Expression
  push_not (not (and a b)) = or (not a) (not b)
  push_not (not (or a b)) = and (not a) (not b)
  push_not (not (not a)) = a
  push_not e = e

  unfoldable pub into_nnf : Expression → Result Expression
  into_nnf e = unwrap (transform (size e) (λ e. ok (push_not e)) ok e)

  -- Distributes OR over AND.
  unfoldable pub distribute : Expression → Expression
  distribute (or (and l r) rhs) = and (or l rhs) (or r rhs)
  distribute (or lhs (and l r)) = and (or lhs l) (or lhs r)
  distribute e = e

  unfoldable pub into_cnf : Expression → Result Expression
  into_cnf e = into_nnf e >>= λ nnf. unwrap (transform (size nnf) (λ e. ok (distribute e)) ok nnf)

  -- The loop over the stack, in at most so many rounds.
  unfoldable pub pop_ands : ℕ → List Expression → Result (List Expression)
  pop_ands rounds [] = ok []
  pop_ands zero (e ∷ stack) = panic
  pop_ands (suc rounds) (and lhs rhs ∷ stack) = pop_ands rounds (lhs ∷ rhs ∷ stack)
  pop_ands (suc rounds) (e ∷ stack) = pop_ands rounds stack >>= λ es. ok (e ∷ es)

  unfoldable pub into_cnf_vec : Expression → Result (List Expression)
  into_cnf_vec e = into_cnf e >>= λ cnf. pop_ands (size cnf) (cnf ∷ [])

  unfoldable pub and_with : Expression → List Expression → Expression
  and_with e [] = e
  and_with e (rhs ∷ es) = and_with (and e rhs) es

  unfoldable pub and_vec : List Expression → Option Expression
  and_vec [] = none
  and_vec (e ∷ es) = some (and_with e es)

  abbrev same_column : Option ℕ → Option ℕ → Option ℕ
  same_column (some l) (some r) = if l == r then some l else none
  same_column _ _ = none

  unfoldable pub is_column_lookup : Expression → Option ℕ
  is_column_lookup (equal (column c) (constant _)) = some c
  is_column_lookup (equal (constant _) (column c)) = some c
  is_column_lookup (is (column c) _) = some c
  is_column_lookup (or a b) = same_column (is_column_lookup a) (is_column_lookup b)
  is_column_lookup _ = none

  -- The values that an equality looks up: none for NULL and NaN, which equal nothing.
  unfoldable pub equality_values : ℕ → ℕ → Value floats → Result (List (Value floats))
  equality_values index c v =
      if c == index then ok (if is_undefined floats v then [] else v ∷ []) else panic

  unfoldable pub into_column_values : ℕ → Expression → Result (List (Value floats))
  into_column_values index (equal (column c) (constant v)) = equality_values index c v
  into_column_values index (equal (constant v) (column c)) = equality_values index c v
  into_column_values index (is (column c) v) = if c == index then ok (v ∷ []) else panic
  into_column_values index (or a b) =
      into_column_values index a >>= λ vs. into_column_values index b >>= λ ws. ok (vs ++ ws)
  into_column_values index _ = panic

  unfoldable pub rename_column : ℕ → ℕ → Expression → Expression
  rename_column source target (column i) = if i == source then column target else column i
  rename_column source target e = e

  unfoldable pub replace_column : Expression → ℕ → ℕ → Result Expression
  replace_column e source target =
      unwrap (transform (size e) (λ e. ok (rename_column source target e)) ok e)
