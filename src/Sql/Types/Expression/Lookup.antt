-- ===== src/Sql/Types/Expression/Lookup.antt =====
-- src/sql/types/expression.rs: the expressions that an index can answer, and their values.
use toydb.Prelude.{
  ℕ, ◌≡◌, refl, sym, ◌∙◌, Bool, true, false, ◌||◌, some, List, [], ◌∷◌, ◌++◌, ◌==◌, if◌then◌else◌,
  get_elem?, inl, inr, Bool-cases, arith,
}
use toydb.Prelude.Int.{ℤ, pos, negsuc, eqℤ}
use toydb.Error.{Result, ok, ok_injective, panic-ne}
use toydb.Encoding.Bytes.{Bytes, eq_bytes}
use toydb.Sql.Types.Value.{
  Floats, Value, null, boolean, integer, float, string, eq_value, is_undefined,
}
use toydb.Sql.Types.Operators.{or_values, equal_values, compare_values, is_null, is_nan_value}
use toydb.Sql.Types.Expression.{
  Row, Expression, constant, column, or, equal, is, both, is_result, column_value, evaluate,
  is_column_lookup, into_column_values, equality_values,
}
use toydb.Sql.Types.Expression.Normal.{both-eq-ok}

pub eqℤ_comm : (a b : ℤ) → eqℤ a b ≡ eqℤ b a
unfolding eqℤ
eqℤ_comm (pos m) (pos n) = ground arith
eqℤ_comm (pos m) (negsuc n) = refl
eqℤ_comm (negsuc m) (pos n) = refl
eqℤ_comm (negsuc m) (negsuc n) = ground arith

eq_bytes_comm : (a b : Bytes) → eq_bytes a b ≡ eq_bytes b a
unfolding eq_bytes
eq_bytes_comm [] [] = refl
eq_bytes_comm [] (y ∷ b) = refl
eq_bytes_comm (x ∷ a) [] = refl
eq_bytes_comm (x ∷ a) (y ∷ b) = ground (arith, eq_bytes_comm a b)

abbrev any : {A : Type 0} → (A → Bool) → List A → Bool
any p [] = false
any p (a ∷ rest) = p a || any p rest

any-append :
    {A : Type 0} (p : A → Bool) (xs ys : List A) → any p (xs ++ ys) ≡ (any p xs || any p ys)
any-append p [] ys = refl
any-append p (x ∷ xs) ys = ground (arith, any-append p xs ys)

module _ (floats : Floats) where
  open floats use {F64}

  abbrev V : Type 0
  V = Value floats

  -- What IEEE 754 says of the equality of numbers: it is symmetric, and NaN equals nothing.
  pub record IsIeee : Type 0 where
    pub eq_comm : (a b : F64) → floats.eq a b ≡ floats.eq b a
    pub eq_nan : (a b : F64) → floats.is_nan b ≡ true → floats.eq a b ≡ false

  unfoldable pub is_true : Value floats → Bool
  is_true (boolean b) = b
  is_true _ = false

  -- A value is among the values of a lookup.
  unfoldable pub looked_up : Value floats → List (Value floats) → Bool
  looked_up v = any (λ w. eq_value floats v w)

  module _ (ieee : IsIeee) where
    equal_values_comm : (v w : V) → equal_values floats v w ≡ equal_values floats w v
    unfolding equal_values compare_values
    equal_values_comm (boolean true) (boolean true) = refl
    equal_values_comm (boolean true) (boolean false) = refl
    equal_values_comm (boolean false) (boolean true) = refl
    equal_values_comm (boolean false) (boolean false) = refl
    equal_values_comm (integer a) (integer b) = rw (eqℤ_comm a b) refl
    equal_values_comm (integer a) (float b) = rw (ieee.eq_comm (floats.of_i64 a) b) refl
    equal_values_comm (float a) (integer b) = rw (ieee.eq_comm a (floats.of_i64 b)) refl
    equal_values_comm (float a) (float b) = rw (ieee.eq_comm a b) refl
    equal_values_comm (string a) (string b) = rw (eq_bytes_comm a b) refl
    equal_values_comm null null = refl
    equal_values_comm _ _ = refl

    -- The equality is true exactly if the second value is defined and the values are equal.
    equal_values-eq_value :
        (v w b : V)
        → equal_values floats v w ≡ ok b
        → is_true b ≡ (if is_undefined floats w then false else eq_value floats v w)
    unfolding equal_values compare_values is_true is_undefined eq_value
    equal_values-eq_value (boolean true) (boolean y) b h = rw (sym (ok_injective h)) refl
    equal_values-eq_value (boolean false) (boolean y) b h = rw (sym (ok_injective h)) refl
    equal_values-eq_value (integer x) (integer y) b h = rw (sym (ok_injective h)) refl
    equal_values-eq_value (integer x) (float y) b h =
        rw (sym (ok_injective h)) (ground (arith, ieee.eq_nan (floats.of_i64 x) y))
    equal_values-eq_value (float x) (integer y) b h = rw (sym (ok_injective h)) refl
    equal_values-eq_value (float x) (float y) b h =
        rw (sym (ok_injective h)) (ground (arith, ieee.eq_nan x y))
    equal_values-eq_value (string x) (string y) b h = rw (sym (ok_injective h)) refl
    equal_values-eq_value null null b h = rw (sym (ok_injective h)) refl
    equal_values-eq_value null (float y) b h = rw (sym (ok_injective h)) (ground arith)
    equal_values-eq_value null _ b h = rw (sym (ok_injective h)) refl
    equal_values-eq_value _ null b h = rw (sym (ok_injective h)) refl
    equal_values-eq_value _ _ b h = absurd (cc h)

    equal_values-looked_up :
        (v w b : V)
        → equal_values floats v w ≡ ok b
        → is_true b ≡ looked_up v (if is_undefined floats w then [] else w ∷ [])
    unfolding looked_up
    equal_values-looked_up v w b h = elim (Bool-cases (is_undefined floats w)) [
      | inl e ↦ rw e (equal_values-eq_value v w b h ∙ rw e refl)
      | inr e ↦ rw e (equal_values-eq_value v w b h ∙ rw e (ground arith))
    ]

    or_values-is_true :
        (x y b : V) → or_values floats x y ≡ ok b → is_true b ≡ (is_true x || is_true y)
    unfolding or_values is_true
    or_values-is_true (boolean x) (boolean y) b h = rw (sym (ok_injective h)) refl
    or_values-is_true (boolean true) null b h = rw (sym (ok_injective h)) refl
    or_values-is_true (boolean false) null b h = rw (sym (ok_injective h)) refl
    or_values-is_true null (boolean true) b h = rw (sym (ok_injective h)) refl
    or_values-is_true null (boolean false) b h = rw (sym (ok_injective h)) refl
    or_values-is_true null null b h = rw (sym (ok_injective h)) refl
    or_values-is_true _ _ b h = absurd (cc h)

    is_nan_value-looked_up :
        (f : F64) (v b : V)
        → floats.is_nan f ≡ true
        → is_nan_value floats v ≡ ok b
        → is_true b ≡ looked_up v (float f ∷ [])
    unfolding is_nan_value is_true looked_up eq_value
    is_nan_value-looked_up f null b n h = rw (sym (ok_injective h)) refl
    is_nan_value-looked_up f (float g) b n h =
        rw (sym (ok_injective h), ieee.eq_nan g f n, n) (ground arith)
    is_nan_value-looked_up f _ b n h = absurd (cc h)

    is_result-looked_up :
        (v w b : V) → is_result floats w (ok v) ≡ ok b → is_true b ≡ looked_up v (w ∷ [])
    unfolding is_result is_null is_nan_value is_true looked_up eq_value
    is_result-looked_up null null b h = rw (sym (ok_injective h)) refl
    is_result-looked_up _ null b h = rw (sym (ok_injective h)) refl
    is_result-looked_up v (float f) b h = elim (Bool-cases (floats.is_nan f)) [
      | inl nan ↦ is_nan_value-looked_up f v b nan (sym (rw nan refl) ∙ h)
      | inr nan ↦ panic-ne (sym (rw nan refl) ∙ h)
    ]
    is_result-looked_up _ _ b h = panic-ne h

    module _ (is_match : Bytes → Bytes → Result Bool) (row : Row floats) (i : ℕ) (v : V) where
      -- The values answer for the expression: wherever it has a value, it is true exactly if
      -- the value of the column is among them.
      unfoldable pub Answers : Expression floats → List (Value floats) → Type 0
      Answers e vs =
          (b : V) → evaluate floats is_match (some row) e ≡ ok b → is_true b ≡ looked_up v vs

      or-Answers :
          (a b : Expression floats) (vs ws : List V)
          → Answers a vs
          → Answers b ws
          → Answers (or a b) (vs ++ ws)
      unfolding Answers evaluate looked_up
      or-Answers a b vs ws h k c e =
          let (x, y, hx, hy, e1) =
            both-eq-ok floats (or_values floats) (evaluate floats is_match (some row) a)
              (evaluate floats is_match (some row) b) c e in
          or_values-is_true x y c e1
          ∙ rw (h x hx, k y hy) (sym (any-append (λ w. eq_value floats v w) vs ws))

      abbrev Found : Expression floats → Type 0
      Found e = (vs : List V) × (into_column_values floats i e ≡ ok vs) × Answers e vs

      column_answer :
          (j : ℕ)
          → some j ≡ some i
          → get_elem? row i ≡ some v
          → column_value floats (some row) j ≡ ok v
      unfolding column_value
      column_answer j h g = let same : j ≡ i = cc (h) in rw (same, g) refl

      column_test : {A : Type 0} (j : ℕ) (a b : A) → some j ≡ some i → (if j == i then a else b) ≡ a
      column_test j a b h = let same : j ≡ i = cc (h) in ground (arith, same)

      found_or :
          (a b : Expression floats)
          → is_column_lookup floats (or a b) ≡ some i
          → (is_column_lookup floats a ≡ some i) × (is_column_lookup floats b ≡ some i)
      unfolding is_column_lookup
      found_or a b h = ground (arith, h)

      -- An expression that looks up a column has a list of values for it, without a panic; and in
      -- each row that has the column, if the expression has a value there, it is true exactly
      -- when the value of the column is one of the list. This needs that the equality of floats
      -- is symmetric and false for NaN.
      pub is_column_lookup_lem :
          get_elem? row i ≡ some v
          → (e : Expression floats) → is_column_lookup floats e ≡ some i
          → (vs : List (Value floats)) × (into_column_values floats i e ≡ ok vs) × Answers e vs
      unfolding is_column_lookup into_column_values equality_values Answers evaluate both
      is_column_lookup_lem g (equal (column c) (constant w)) h = (
        _,
        column_test c _ _ h,
        λ b e. equal_values-looked_up v w b (sym (rw (column_answer c h g) refl) ∙ e),
      )
      is_column_lookup_lem g (equal (constant w) (column c)) h = (
        _,
        column_test c _ _ h,
        λ b e.
            equal_values-looked_up v w b
              (equal_values_comm v w ∙ sym (rw (column_answer c h g) refl) ∙ e),
      )
      is_column_lookup_lem g (is (column c) w) h = (
        _,
        column_test c _ _ h,
        λ b e. is_result-looked_up v w b (sym (rw (column_answer c h g) refl) ∙ e),
      )
      is_column_lookup_lem g (or a b) h =
          let (vs, hv, answer) = is_column_lookup_lem g a (found_or a b h).0 in
          let (ws, hw, answer') = is_column_lookup_lem g b (found_or a b h).1 in
          (vs ++ ws, rw (hv, hw) refl, or-Answers a b vs ws answer answer')
      is_column_lookup_lem g _ h = absurd (cc h)
