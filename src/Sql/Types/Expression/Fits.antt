-- ===== src/Sql/Types/Expression/Fits.antt =====
-- src/sql/types/expression.rs: the integers that expressions give stay within 64 bits.
use toydb.Prelude.{
  ℕ, zero, suc, ◌+◌, ◌≡◌, refl, sym, ◌∙◌, Bool, true, ◌&&◌, some, [], ◌∷◌, All, get_elem?, &&-both,
  inl, inr, Bool-cases,
}
use toydb.Prelude.Int.{pos, neg, fits_i64}
use toydb.Error.{Result, ok, ◌>>=◌, >>=-eq-ok, ok_injective, panic-ne, or_panic}
use toydb.Encoding.Bytes.{Bytes}
use toydb.Sql.Types.Value.{Floats, Value, null, boolean, integer, float, string, checked_mul}
use toydb.Sql.Types.Operators.{
  not_value, equal_values, greater_than_values, less_than_values, is_null, is_nan_value,
  multiply_up, factorial_value, identity_value, negate_value, square_root_value, like_values,
}
use toydb.Sql.Types.Bounds.{
  value_fits, FitsOk, FitsOp, NoInts, wrap_i64-fits, checked_add-FitsOp, checked_sub-FitsOp,
  checked_mul-FitsOp, checked_div-FitsOp, checked_rem-FitsOp, checked_pow-FitsOp, and_values-NoInts,
  or_values-NoInts, compare_values-NoInts,
}
use toydb.Sql.Types.Expression.{
  Row, Expression, constant, column, and, or, equal, greater_than, less_than, add, divide,
  exponentiate, multiply, remainder, subtract, like, not, factorial, identity, negate, square_root,
  is, is_result, column_value, both, evaluate, walk,
}
use toydb.Sql.Types.Expression.Normal.{both-eq-ok}

module _ (floats : Floats) where
  abbrev E : Type 0
  E = Expression floats

  abbrev V : Type 0
  V = Value floats

  -- An operation on one value that gives no integer.
  abbrev NoInt : (V → Result V) → Type 0
  NoInt op = (x v : V) → op x ≡ ok v → value_fits floats v ≡ true

  abbrev KeepsFits : (V → Result V) → Type 0
  KeepsFits op = (x : V) → value_fits floats x ≡ true → FitsOk floats (op x)

  not_value-NoInt : NoInt (not_value floats)
  unfolding not_value value_fits
  not_value-NoInt (boolean b) v e = rw (sym (ok_injective e)) refl
  not_value-NoInt null v e = rw (sym (ok_injective e)) refl
  not_value-NoInt _ v e = absurd (cc e)

  square_root_value-NoInt : NoInt (square_root_value floats)
  unfolding square_root_value value_fits
  square_root_value-NoInt (integer (pos i)) v e = rw (sym (ok_injective e)) refl
  square_root_value-NoInt (float f) v e = rw (sym (ok_injective e)) refl
  square_root_value-NoInt null v e = rw (sym (ok_injective e)) refl
  square_root_value-NoInt _ v e = absurd (cc e)

  is_nan_value-NoInt : NoInt (is_nan_value floats)
  unfolding is_nan_value value_fits
  is_nan_value-NoInt (float f) v e = rw (sym (ok_injective e)) refl
  is_nan_value-NoInt null v e = rw (sym (ok_injective e)) refl
  is_nan_value-NoInt _ v e = absurd (cc e)

  is_result-NoInt : (w : V) (r : Result V) → FitsOk floats (is_result floats w r)
  unfolding is_result value_fits
  is_result-NoInt null r v e =
      let (x, hx, hv) = >>=-eq-ok r (λ x. ok (boolean (is_null floats x))) e in
      rw (sym (ok_injective hv)) refl
  is_result-NoInt (float f) r v e = elim (Bool-cases (floats.is_nan f)) [
    | inl nan ↦
        let (x, hx, hv) = >>=-eq-ok r (is_nan_value floats) (sym (rw nan refl) ∙ e) in
        is_nan_value-NoInt x v hv
    | inr nan ↦ panic-ne (sym (rw nan refl) ∙ e)
  ]
  is_result-NoInt _ r v e = panic-ne e

  identity_value-KeepsFits : KeepsFits (identity_value floats)
  unfolding identity_value value_fits
  identity_value-KeepsFits (integer i) f v e = rw (sym (ok_injective e)) f
  identity_value-KeepsFits (float g) f v e = rw (sym (ok_injective e)) refl
  identity_value-KeepsFits null f v e = rw (sym (ok_injective e)) refl
  identity_value-KeepsFits _ f v e = absurd (cc e)

  negate_value-KeepsFits : KeepsFits (negate_value floats)
  unfolding negate_value value_fits
  negate_value-KeepsFits (integer i) f v e = rw (sym (ok_injective e)) (wrap_i64-fits (neg i))
  negate_value-KeepsFits (float g) f v e = rw (sym (ok_injective e)) refl
  negate_value-KeepsFits null f v e = rw (sym (ok_injective e)) refl
  negate_value-KeepsFits _ f v e = absurd (cc e)

  multiply_up-FitsOk :
      (count next : ℕ) (product : V)
      → value_fits floats product ≡ true
      → FitsOk floats (multiply_up floats count next product)
  unfolding multiply_up
  multiply_up-FitsOk zero next product f v e = rw (sym (ok_injective e)) f
  multiply_up-FitsOk (suc count) next product f v e =
      let factor : V = integer (pos next) in
      let (x, hx, hv) =
        >>=-eq-ok (checked_mul floats product factor) (multiply_up floats count (next + 1)) e in
      multiply_up-FitsOk count (next + 1) x (checked_mul-FitsOp floats product factor f x hx) v hv

  factorial_value-KeepsFits : KeepsFits (factorial_value floats)
  unfolding factorial_value value_fits fits_i64
  factorial_value-KeepsFits (integer (pos i)) f v e =
      multiply_up-FitsOk i 1 (integer (pos 1)) refl v e
  factorial_value-KeepsFits null f v e = rw (sym (ok_injective e)) refl
  factorial_value-KeepsFits _ f v e = absurd (cc e)

  get_elem?-fits :
      (row : Row floats) (i : ℕ)
      → All (λ v. value_fits floats v ≡ true) row
      → FitsOk floats (or_panic (get_elem? row i))
  get_elem?-fits [] i h v e = panic-ne e
  get_elem?-fits (x ∷ row) zero h v e = rw (sym (ok_injective e)) h.0
  get_elem?-fits (x ∷ row) (suc i) h v e = get_elem?-fits row i h.1 v e

  -- A constant is an integer of 64 bits, or no integer.
  unfoldable pub constant_fits : Expression floats → Bool
  constant_fits (constant v) = value_fits floats v
  constant_fits _ = true

  module _ (is_match : Bytes → Bytes → Result Bool) (row : Row floats) where
    like_values-NoInts : NoInts floats (like_values floats is_match)
    unfolding like_values value_fits
    like_values-NoInts (string a) (string b) v e =
        let (found, hf, hv) = >>=-eq-ok (is_match a b) (λ found. ok (boolean found)) e in
        rw (sym (ok_injective hv)) refl
    like_values-NoInts (string a) null v e = rw (sym (ok_injective e)) refl
    like_values-NoInts null (string b) v e = rw (sym (ok_injective e)) refl
    like_values-NoInts null null v e = rw (sym (ok_injective e)) refl
    like_values-NoInts _ _ v e = absurd (cc e)

    abbrev value : E → Result V
    value = evaluate floats is_match (some row)

    -- The two sides of an operation, or the one.
    abbrev Fits : E → Type 0
    Fits e = walk floats constant_fits e ≡ true → FitsOk floats (value e)

    both-FitsOk :
        (op : V → V → Result V)
        → FitsOp floats op
        → (a b : E) → Fits a
        → (walk floats constant_fits a && walk floats constant_fits b) ≡ true
        → FitsOk floats (both floats op (value a) (value b))
    both-FitsOk op h a b fa k v e =
        let (x, y, hx, hy, hv) = both-eq-ok floats op (value a) (value b) v e in
        h x y (fa (&&-both (walk floats constant_fits a) (walk floats constant_fits b) k).0 x hx) v
          hv

    both-NoInts :
        (op : V → V → Result V)
        → NoInts floats op
        → (r s : Result V) → FitsOk floats (both floats op r s)
    both-NoInts op h r s v e = let (x, y, hx, hy, hv) = both-eq-ok floats op r s v e in h x y v hv

    then-NoInt : (op : V → Result V) → NoInt op → (r : Result V) → FitsOk floats (r >>= op)
    then-NoInt op h r v e = let (x, hx, hv) = >>=-eq-ok r op e in h x v hv

    then-KeepsFits :
        (op : V → Result V)
        → KeepsFits op
        → (r : Result V) → FitsOk floats r
        → FitsOk floats (r >>= op)
    then-KeepsFits op h r f v e = let (x, hx, hv) = >>=-eq-ok r op e in h x (f x hx) v hv

    module _ (fits : All (λ v. value_fits floats v ≡ true) row) where
      -- If the integers of the row and the constants of the expression fit in 64 bits, then so
      -- does the value of the expression, if it has one.
      pub evaluate-value_fits :
          (e : Expression floats)
          → walk floats constant_fits e ≡ true
          → (v : Value floats) → evaluate floats is_match (some row) e ≡ ok v
          → value_fits floats v ≡ true
      unfolding evaluate walk constant_fits column_value equal_values greater_than_values
          less_than_values
      evaluate-value_fits (constant w) h v e = rw (sym (ok_injective e)) h
      evaluate-value_fits (column i) h v e = get_elem?-fits row i fits v e
      evaluate-value_fits (and a b) h v e =
          both-NoInts _ (and_values-NoInts floats) (value a) (value b) v e
      evaluate-value_fits (or a b) h v e =
          both-NoInts _ (or_values-NoInts floats) (value a) (value b) v e
      evaluate-value_fits (equal a b) h v e =
          both-NoInts _ (compare_values-NoInts floats _ _ _ _) (value a) (value b) v e
      evaluate-value_fits (greater_than a b) h v e =
          both-NoInts _ (compare_values-NoInts floats _ _ _ _) (value a) (value b) v e
      evaluate-value_fits (less_than a b) h v e =
          both-NoInts _ (compare_values-NoInts floats _ _ _ _) (value a) (value b) v e
      evaluate-value_fits (add a b) h v e =
          both-FitsOk _ (checked_add-FitsOp floats) a b (evaluate-value_fits a) h v e
      evaluate-value_fits (divide a b) h v e =
          both-FitsOk _ (checked_div-FitsOp floats) a b (evaluate-value_fits a) h v e
      evaluate-value_fits (exponentiate a b) h v e =
          both-FitsOk _ (checked_pow-FitsOp floats) a b (evaluate-value_fits a) h v e
      evaluate-value_fits (multiply a b) h v e =
          both-FitsOk _ (checked_mul-FitsOp floats) a b (evaluate-value_fits a) h v e
      evaluate-value_fits (remainder a b) h v e =
          both-FitsOk _ (checked_rem-FitsOp floats) a b (evaluate-value_fits a) h v e
      evaluate-value_fits (subtract a b) h v e =
          both-FitsOk _ (checked_sub-FitsOp floats) a b (evaluate-value_fits a) h v e
      evaluate-value_fits (like a b) h v e =
          both-NoInts _ like_values-NoInts (value a) (value b) v e
      evaluate-value_fits (not a) h v e = then-NoInt _ not_value-NoInt (value a) v e
      evaluate-value_fits (factorial a) h v e =
          then-KeepsFits _ factorial_value-KeepsFits (value a) (evaluate-value_fits a h) v e
      evaluate-value_fits (identity a) h v e =
          then-KeepsFits _ identity_value-KeepsFits (value a) (evaluate-value_fits a h) v e
      evaluate-value_fits (negate a) h v e =
          then-KeepsFits _ negate_value-KeepsFits (value a) (evaluate-value_fits a h) v e
      evaluate-value_fits (square_root a) h v e = then-NoInt _ square_root_value-NoInt (value a) v e
      evaluate-value_fits (is a w) h v e = is_result-NoInt w (value a) v e
