-- ===== src/Sql/Types/Expression/Meaning.antt =====
-- src/sql/types/expression.rs: the meaning of an expression under a transformation.
use toydb.Prelude.{ℕ, zero, suc, ◌≡◌, refl, sym, ◌∙◌, Bool, Option, inl, inr, Bool-cases}
use toydb.Error.{Result, ok, ◌>>=◌, >>=-eq-ok, ok_injective, panic-ne}
use toydb.Encoding.Bytes.{Bytes}
use toydb.Sql.Types.Value.{
  Floats, Value, null, boolean, float, checked_add, checked_sub, checked_mul, checked_div,
  checked_rem, checked_pow,
}
use toydb.Sql.Types.Operators.{
  and_values, or_values, not_value, equal_values, greater_than_values, less_than_values, is_null,
  is_nan_value, factorial_value, identity_value, negate_value, square_root_value, like_values,
}
use toydb.Sql.Types.Expression.{
  Row, Expression, constant, column, and, or, equal, greater_than, less_than, add, divide,
  exponentiate, multiply, remainder, subtract, like, not, factorial, identity, negate, square_root,
  is, is_result, both, evaluate, descend, transform,
}

-- What a result gives, the other gives.
abbrev pub Extends : {A : Type 0} → Result A → Result A → Type 0
Extends {A} r s = (a : A) → r ≡ ok a → s ≡ ok a

>>=-Extends :
    {A B : Type 0} (r s : Result A) (next : A → Result B)
    → Extends r s
    → Extends (r >>= next) (s >>= next)
>>=-Extends r s next h b e = let (a, ha, hb) = >>=-eq-ok r next e in rw (h a ha) hb

module _ (floats : Floats) (is_match : Bytes → Bytes → Result Bool) where
  abbrev E : Type 0
  E = Expression floats

  abbrev V : Type 0
  V = Value floats

  pub both-Extends :
      (op : V → V → Result V) (a b a' b' : Result V)
      → Extends a a'
      → Extends b b'
      → Extends (both floats op a b) (both floats op a' b')
  unfolding both
  both-Extends op a b a' b' h k v e =
      let (x, hx, e1) = >>=-eq-ok a (λ x. b >>= op x) e in
      let (y, hy, e2) = >>=-eq-ok b (op x) e1 in rw (h x hx, k y hy) e2

  is_result-Extends :
      (v : V) (a a' : Result V)
      → Extends a a'
      → Extends (is_result floats v a) (is_result floats v a')
  unfolding is_result
  is_result-Extends null a a' h = >>=-Extends a a' (λ w. ok (boolean (is_null floats w))) h
  is_result-Extends (float f) a a' h = elim (Bool-cases (floats.is_nan f)) [
    | inl nan ↦ rw nan (>>=-Extends a a' (is_nan_value floats) h)
    | inr nan ↦ rw nan (λ w e. panic-ne e)
  ]
  is_result-Extends _ a a' h = λ w e. panic-ne e

  -- In every row in which the first expression has a value, the other has that value.
  unfoldable pub Keeps : Expression floats → Expression floats → Type 0
  Keeps e e' =
      (row : Option (Row floats))
      → Extends (evaluate floats is_match row e) (evaluate floats is_match row e')

  abbrev pub KeepsAll : (Expression floats → Result (Expression floats)) → Type 0
  KeepsAll f = (e e' : E) → f e ≡ ok e' → Keeps e e'

  binary-Keeps :
      (c : E → E → E) (op : V → V → Result V)
      → ((row : Option (Row floats)) (a b : E)
          → evaluate floats is_match row (c a b)
            ≡ both floats op (evaluate floats is_match row a) (evaluate floats is_match row b))
      → (f : E → Result E) → KeepsAll f
      → (a b e' : E) → (f a >>= λ lhs. f b >>= λ rhs. ok (c lhs rhs)) ≡ ok e'
      → Keeps (c a b) e'
  unfolding Keeps
  binary-Keeps c op law f h a b e' e row v hv =
      let value : E → Result V = evaluate floats is_match row in
      let (x, hx, e1) = >>=-eq-ok (f a) (λ lhs. f b >>= λ rhs. ok (c lhs rhs)) e in
      let (y, hy, e2) = >>=-eq-ok (f b) (λ rhs. ok (c x rhs)) e1 in
      let whole =
        both-Extends op (value a) (value b) (value x) (value y) (h a x hx row) (h b y hy row) in
      rw (sym (ok_injective e2), law row x y) (whole v (sym (law row a b) ∙ hv))

  unary-Keeps :
      (c : E → E) (op : Result V → Result V)
      → ((row : Option (Row floats)) (a : E)
          → evaluate floats is_match row (c a) ≡ op (evaluate floats is_match row a))
      → ((r s : Result V) → Extends r s → Extends (op r) (op s))
      → (f : E → Result E) → KeepsAll f
      → (a e' : E) → (f a >>= λ inner. ok (c inner)) ≡ ok e'
      → Keeps (c a) e'
  unfolding Keeps
  unary-Keeps c op law mono f h a e' e row v hv =
      let value : E → Result V = evaluate floats is_match row in
      let (x, hx, e1) = >>=-eq-ok (f a) (λ inner. ok (c inner)) e in
      let whole = mono (value a) (value x) (h a x hx row) in
      rw (sym (ok_injective e1), law row x) (whole v (sym (law row a) ∙ hv))

  pub Keeps-refl : (e : Expression floats) → Keeps e e
  unfolding Keeps
  Keeps-refl e row v h = h

  pub Keeps-trans : (a b c : Expression floats) → Keeps a b → Keeps b c → Keeps a c
  unfolding Keeps
  Keeps-trans a b c h k row v e = k row v (h row v e)

  -- Transformed children keep the value of their parent.
  descend-Keeps :
      (f : E → Result E) → KeepsAll f → (e e' : E) → descend floats f e ≡ ok e' → Keeps e e'
  unfolding descend evaluate
  descend-Keeps f h (constant v) e' e = rw (sym (ok_injective e)) (Keeps-refl (constant v))
  descend-Keeps f h (column i) e' e = rw (sym (ok_injective e)) (Keeps-refl (column i))
  descend-Keeps f h (and a b) e' e =
      binary-Keeps and (and_values floats) (λ row a b. refl) f h a b e' e
  descend-Keeps f h (or a b) e' e =
      binary-Keeps or (or_values floats) (λ row a b. refl) f h a b e' e
  descend-Keeps f h (equal a b) e' e =
      binary-Keeps equal (equal_values floats) (λ row a b. refl) f h a b e' e
  descend-Keeps f h (greater_than a b) e' e =
      binary-Keeps greater_than (greater_than_values floats) (λ row a b. refl) f h a b e' e
  descend-Keeps f h (less_than a b) e' e =
      binary-Keeps less_than (less_than_values floats) (λ row a b. refl) f h a b e' e
  descend-Keeps f h (add a b) e' e =
      binary-Keeps add (checked_add floats) (λ row a b. refl) f h a b e' e
  descend-Keeps f h (divide a b) e' e =
      binary-Keeps divide (checked_div floats) (λ row a b. refl) f h a b e' e
  descend-Keeps f h (exponentiate a b) e' e =
      binary-Keeps exponentiate (checked_pow floats) (λ row a b. refl) f h a b e' e
  descend-Keeps f h (multiply a b) e' e =
      binary-Keeps multiply (checked_mul floats) (λ row a b. refl) f h a b e' e
  descend-Keeps f h (remainder a b) e' e =
      binary-Keeps remainder (checked_rem floats) (λ row a b. refl) f h a b e' e
  descend-Keeps f h (subtract a b) e' e =
      binary-Keeps subtract (checked_sub floats) (λ row a b. refl) f h a b e' e
  descend-Keeps f h (like a b) e' e =
      binary-Keeps like (like_values floats is_match) (λ row a b. refl) f h a b e' e
  descend-Keeps f h (not a) e' e =
      unary-Keeps not (λ r. r >>= not_value floats) (λ row a. refl)
        (λ r s. >>=-Extends r s (not_value floats)) f h a e' e
  descend-Keeps f h (factorial a) e' e =
      unary-Keeps factorial (λ r. r >>= factorial_value floats) (λ row a. refl)
        (λ r s. >>=-Extends r s (factorial_value floats)) f h a e' e
  descend-Keeps f h (identity a) e' e =
      unary-Keeps identity (λ r. r >>= identity_value floats) (λ row a. refl)
        (λ r s. >>=-Extends r s (identity_value floats)) f h a e' e
  descend-Keeps f h (negate a) e' e =
      unary-Keeps negate (λ r. r >>= negate_value floats) (λ row a. refl)
        (λ r s. >>=-Extends r s (negate_value floats)) f h a e' e
  descend-Keeps f h (square_root a) e' e =
      unary-Keeps square_root (λ r. r >>= square_root_value floats) (λ row a. refl)
        (λ r s. >>=-Extends r s (square_root_value floats)) f h a e' e
  descend-Keeps f h (is a v) e' e =
      unary-Keeps (λ x. is x v) (is_result floats v) (λ row a. refl) (is_result-Extends v) f h a e'
        e

  -- A rule that keeps values does so wherever it is applied.
  pub transform-Keeps :
      (rule : Expression floats → Expression floats)
      → ((e : Expression floats) → Keeps e (rule e))
      → (n : ℕ) → KeepsAll (transform floats n (λ e. ok (rule e)) ok)
  unfolding transform
  transform-Keeps rule h zero a b e = panic-ne e
  transform-Keeps rule h (suc n) a b e =
      let below = transform floats n (λ e. ok (rule e)) ok in
      let (c, hc, e1) = >>=-eq-ok (descend floats below (rule a)) ok e in
      let kept : Keeps (rule a) c = descend-Keeps below (transform-Keeps rule h n) (rule a) c hc in
      rw (sym (ok_injective e1)) (Keeps-trans a (rule a) c (h a) kept)
