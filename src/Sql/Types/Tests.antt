-- ===== src/Sql/Types/Tests.antt =====
-- src/sql/types: the theorems at concrete expressions.
use toydb.Prelude.{
  ◌≡◌, refl, if◌then◌else◌, Bool, true, false, Option, some, none, List, [], ◌∷◌, All,
}
use Prim.Native.Nat.{Ordering}
use toydb.Prelude.Int.{
  ℤ, pos, negsuc, neg, wrap_i64, fits_i64, ◌+ℤ◌, ◌-ℤ◌, ◌*ℤ◌, quot, rem, eqℤ, ltℤ,
}
use toydb.Error.{Result, ok}
use toydb.Encoding.Bytes.{Bytes, eq_bytes}
use toydb.Sql.Types.Value.{
  Floats, Value, null, integer, checked_mul, arithmetic, or_overflow, checked_mul_i64, checked,
}
use toydb.Sql.Types.Operators.{negate_value}
use toydb.Sql.Types.Bounds.{value_fits}
use toydb.Sql.Types.Expression.Fits.{constant_fits, evaluate-value_fits}
use toydb.Sql.Types.Expression.{
  negate, multiply, evaluate, both, walk, column_value, Expression, transform, size, descend,
  push_not, distribute, constant, column, and, or, not, equal, is, into_nnf, into_cnf, into_cnf_vec,
  and_vec, is_column_lookup, into_column_values,
}
use toydb.Sql.Types.Expression.Meaning.{Keeps}
use toydb.Sql.Types.Expression.Normal.{into_nnf_lem, into_cnf_lem}
use toydb.Sql.Types.Expression.Conjuncts.{is_and, into_cnf_vec_lem}
use toydb.Sql.Types.Expression.Lookup.{IsIeee, Answers, is_column_lookup_lem, eqℤ_comm}

-- Numbers for the tests: whole numbers and NaN.
abbrev with_nan : (ℤ → ℤ → ℤ) → Option ℤ → Option ℤ → Option ℤ
with_nan op (some a) (some b) = some (op a b)
with_nan op _ _ = none

abbrev compare_whole : (ℤ → ℤ → Bool) → Option ℤ → Option ℤ → Bool
compare_whole test (some a) (some b) = test a b
compare_whole test _ _ = false

abbrev pub whole : Floats
whole = record {
  F64 = Option ℤ;
  of_i64 = some;
  add = with_nan (λ a b. a +ℤ b);
  sub = with_nan (λ a b. a -ℤ b);
  mul = with_nan (λ a b. a *ℤ b);
  div = with_nan quot;
  rem = with_nan rem;
  powf = with_nan (λ a b. a);
  powi = λ a b. a;
  sqrt = λ a. a;
  neg = λ a. a;
  eq = compare_whole eqℤ;
  lt = compare_whole ltℤ;
  total_cmp = λ a b.
      if compare_whole ltℤ a b
      then Ordering.lt
      else if compare_whole eqℤ a b
      then Ordering.eq
      else Ordering.gt;
  is_nan = λ a. elim a [ none ↦ true | some _ ↦ false ];
}

abbrev pub same_text : Bytes → Bytes → Result Bool
same_text a b = ok (eq_bytes a b)

abbrev equals_three : Expression whole
equals_three = equal (column 0) (constant (integer (pos 3)))

abbrev is_missing : Expression whole
is_missing = is (column 0) null

-- NOT (#0 = 3 AND NOT #0 IS NULL)
abbrev negated : Expression whole
negated = not (and equals_three (not is_missing))

-- (#0 = 3 AND #0 IS NULL) OR #0 IS NULL
abbrev disjunction : Expression whole
disjunction = or (and equals_three is_missing) is_missing

-- 3 = #0 OR #0 IS NULL
abbrev lookup : Expression whole
lookup = or (equal (constant (integer (pos 3))) (column 0)) is_missing

into_nnf-negated : into_nnf whole negated ≡ ok (or (not equals_three) is_missing)
unfolding into_nnf transform size descend push_not
into_nnf-negated = refl

-- An OR that gets an AND as a child only when the child is transformed stays above it.
into_cnf-nested :
    into_cnf whole (or (or (and equals_three is_missing) is_missing) is_missing)
    ≡ ok (or (and (or equals_three is_missing) (or is_missing is_missing)) is_missing)
unfolding into_cnf into_nnf transform size descend push_not distribute
into_cnf-nested = refl

into_nnf_lem_example :
    (e : Expression whole) × (into_nnf whole negated ≡ ok e) × Keeps whole same_text negated e
into_nnf_lem_example = into_nnf_lem whole same_text negated

into_cnf_lem_example :
    (e : Expression whole) × (into_cnf whole disjunction ≡ ok e)
    × Keeps whole same_text disjunction e
into_cnf_lem_example = into_cnf_lem whole same_text disjunction

into_cnf_vec_lem_example :
    (es : List (Expression whole)) × (e' : Expression whole) × (into_cnf_vec whole disjunction
      ≡ ok es)
    × (and_vec whole es ≡ some e')
    × All (λ e. is_and whole e ≡ false) es
    × Keeps whole same_text disjunction e'
into_cnf_vec_lem_example = into_cnf_vec_lem whole same_text disjunction

whole-IsIeee : IsIeee whole
whole-IsIeee = record { eq_comm = symmetric; eq_nan = never }
  where
    symmetric : (a b : Option ℤ) → compare_whole eqℤ a b ≡ compare_whole eqℤ b a
    symmetric (some a) (some b) = eqℤ_comm a b
    symmetric (some a) none = refl
    symmetric none none = refl
    symmetric none (some b) = refl

    never : (a b : Option ℤ) → whole.is_nan b ≡ true → compare_whole eqℤ a b ≡ false
    never (some a) none h = refl
    never none none h = refl
    never a (some b) h = absurd (cc h)

lookup-column : is_column_lookup whole lookup ≡ some 0
unfolding is_column_lookup
lookup-column = refl

is_column_lookup_lem_example :
    (vs : List (Value whole)) × (into_column_values whole 0 lookup ≡ ok vs)
    × Answers whole whole-IsIeee same_text (integer (pos 3) ∷ []) 0 (integer (pos 3)) lookup vs
is_column_lookup_lem_example =
    is_column_lookup_lem whole whole-IsIeee same_text (integer (pos 3) ∷ []) 0 (integer (pos 3))
      refl lookup lookup-column

-- -(#0 * 3)
abbrev product : Expression whole
product = negate (multiply (column 0) (constant (integer (pos 3))))

evaluate-value_fits_example : value_fits whole (integer (negsuc 14)) ≡ true
unfolding evaluate both column_value checked_mul arithmetic or_overflow checked_mul_i64 checked
    fits_i64 ◌*ℤ◌ negate_value wrap_i64 neg walk constant_fits value_fits
evaluate-value_fits_example =
    evaluate-value_fits whole same_text (integer (pos 5) ∷ []) (refl, tt) product refl
      (integer (negsuc 14)) refl
