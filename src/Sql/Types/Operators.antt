-- ===== src/Sql/Types/Operators.antt =====
-- src/sql/types/expression.rs: what the operators of expressions do with values, NULLs
-- included. The matching of the LIKE operator, by the regex crate, is a parameter.
use toydb.Prelude.{ℕ, zero, suc, ◌+◌, Bool, true, false, not, ◌&&◌, ◌||◌, if◌then◌else◌}
use toydb.Prelude.Int.{ℤ, pos, neg, ltℤ, eqℤ, wrap_i64}
use toydb.Error.{Result, ok, err, ◌>>=◌, invalid_input}
use toydb.Encoding.Bytes.{Bytes, lex_lt, eq_bytes}
use toydb.Sql.Types.Value.{Floats, Value, null, boolean, integer, float, string, checked_mul}

module _ (floats : Floats) where
  open floats use {F64, of_i64}

  unfoldable pub and_values : Value floats → Value floats → Result (Value floats)
  and_values (boolean a) (boolean b) = ok (boolean (a && b))
  and_values (boolean a) null = ok (if not a then boolean false else null)
  and_values null (boolean b) = ok (if not b then boolean false else null)
  and_values null null = ok null
  and_values _ _ = err invalid_input

  unfoldable pub or_values : Value floats → Value floats → Result (Value floats)
  or_values (boolean a) (boolean b) = ok (boolean (a || b))
  or_values (boolean a) null = ok (if a then boolean true else null)
  or_values null (boolean b) = ok (if b then boolean true else null)
  or_values null null = ok null
  or_values _ _ = err invalid_input

  unfoldable pub not_value : Value floats → Result (Value floats)
  not_value (boolean b) = ok (boolean (not b))
  not_value null = ok null
  not_value _ = err invalid_input

  -- The three comparisons differ in the test that they use for each type.
  unfoldable pub compare_values :
      (Bool → Bool → Bool)
      → (ℤ → ℤ → Bool)
      → (F64 → F64 → Bool)
      → (Bytes → Bytes → Bool)
      → Value floats
      → Value floats
      → Result (Value floats)
  compare_values bools ints reals strings (boolean a) (boolean b) = ok (boolean (bools a b))
  compare_values bools ints reals strings (integer a) (integer b) = ok (boolean (ints a b))
  compare_values bools ints reals strings (integer a) (float b) = ok (boolean (reals (of_i64 a) b))
  compare_values bools ints reals strings (float a) (integer b) = ok (boolean (reals a (of_i64 b)))
  compare_values bools ints reals strings (float a) (float b) = ok (boolean (reals a b))
  compare_values bools ints reals strings (string a) (string b) = ok (boolean (strings a b))
  compare_values bools ints reals strings null _ = ok null
  compare_values bools ints reals strings _ null = ok null
  compare_values bools ints reals strings _ _ = err invalid_input

  unfoldable pub equal_values : Value floats → Value floats → Result (Value floats)
  equal_values = compare_values (λ a b. if a then b else not b) eqℤ (λ a b. floats.eq a b) eq_bytes

  unfoldable pub less_than_values : Value floats → Value floats → Result (Value floats)
  less_than_values = compare_values (λ a b. not a && b) ltℤ (λ a b. floats.lt a b) lex_lt

  unfoldable pub greater_than_values : Value floats → Value floats → Result (Value floats)
  greater_than_values =
      compare_values (λ a b. a && not b) (λ a b. ltℤ b a) (λ a b. floats.lt b a) (λ a b. lex_lt b a)

  -- IS NULL and IS NAN; the parser allows no other value.
  unfoldable pub is_null : Value floats → Bool
  is_null null = true
  is_null _ = false

  unfoldable pub is_nan_value : Value floats → Result (Value floats)
  is_nan_value (float f) = ok (boolean (floats.is_nan f))
  is_nan_value null = ok null
  is_nan_value _ = err invalid_input

  -- `(1..=i).try_fold`: multiplies by `count` numbers from `next` on.
  unfoldable pub multiply_up : ℕ → ℕ → Value floats → Result (Value floats)
  multiply_up zero next product = ok product
  multiply_up (suc count) next product =
      checked_mul floats product (integer (pos next)) >>= multiply_up count (next + 1)

  unfoldable pub factorial_value : Value floats → Result (Value floats)
  factorial_value (integer (pos i)) = multiply_up i 1 (integer (pos 1))
  factorial_value null = ok null
  factorial_value _ = err invalid_input

  unfoldable pub identity_value : Value floats → Result (Value floats)
  identity_value (integer i) = ok (integer i)
  identity_value (float f) = ok (float f)
  identity_value null = ok null
  identity_value _ = err invalid_input

  -- The negation wraps around, as in a build without overflow checks.
  unfoldable pub negate_value : Value floats → Result (Value floats)
  negate_value (integer i) = ok (integer (wrap_i64 (neg i)))
  negate_value (float f) = ok (float (floats.neg f))
  negate_value null = ok null
  negate_value _ = err invalid_input

  unfoldable pub square_root_value : Value floats → Result (Value floats)
  square_root_value (integer (pos i)) = ok (float (floats.sqrt (of_i64 (pos i))))
  square_root_value (float f) = ok (float (floats.sqrt f))
  square_root_value null = ok null
  square_root_value _ = err invalid_input

  unfoldable pub like_values :
      (Bytes → Bytes → Result Bool) → Value floats → Value floats → Result (Value floats)
  like_values is_match (string a) (string b) = is_match a b >>= λ found. ok (boolean found)
  like_values is_match (string _) null = ok null
  like_values is_match null (string _) = ok null
  like_values is_match null null = ok null
  like_values is_match _ _ = err invalid_input
