-- ===== src/Sql/Planner/Folded.antt =====
-- src/sql/planner/optimizer.rs: folded expressions have the values of the unfolded ones.
use toydb.Prelude.{
  ℕ, zero, suc, ◌≤◌, max, ◌≡◌, refl, sym, ap, ◌∙◌, Bool, true, false, Option, inl, inr, Bool-cases,
  arith,
}
use toydb.Error.{Result, ok, ◌>>=◌, >>=-eq-ok, panic-ne}
use toydb.Encoding.Bytes.{Bytes}
use toydb.Sql.Types.Value.{
  Floats, Value, null, boolean, float, checked_add, checked_sub, checked_mul, checked_div,
  checked_rem, checked_pow,
}
use toydb.Sql.Types.Operators.{
  and_values, or_values, not_value, equal_values, greater_than_values, less_than_values, is_null,
  is_nan_value, factorial_value, identity_value, negate_value, square_root_value, like_values,
}
use toydb.Sql.Types.Expression.{
  Row, Expression, constant, column, and, or, equal, greater_than, less_than, add, divide,
  exponentiate, multiply, remainder, subtract, like, not, factorial, identity, negate, square_root,
  is, is_result, both, evaluate, walk, contains, descend, transform, size,
}
use toydb.Sql.Types.Expression.Normal.{both-eq-ok}
use toydb.Sql.Types.Expression.Transform.{breadth, breadth-lt-size}
use toydb.Sql.Planner.Constants.{
  no_column, evaluate-none, false_and, and_false, true_and, and_true, true_or, or_true, false_or,
  or_false,
}
use toydb.Sql.Planner.ConstantFolding.{fold_logic, fold, fold_all}

module _ (floats : Floats) (is_match : Bytes → Bytes → Result Bool) where
  abbrev E : Type 0
  E = Expression floats

  abbrev V : Type 0
  V = Value floats

  module _ (row : Option (Row floats)) where
    abbrev value : E → Result V
    value = evaluate floats is_match row

    -- The result of a function has the value of the expression, if that has one.
    abbrev Folds : Result E → Result V → Type 0
    Folds folded before = (v : V) → before ≡ ok v → (e : E) × (folded ≡ ok e) × (value e ≡ ok v)

    abbrev FoldsBelow : ℕ → (E → Result E) → Type 0
    FoldsBelow n f = (e : E) → size floats e ≤ n → Folds (f e) (value e)

    binary-Folds :
        (c : E → E → E) (op : V → V → Result V)
        → ((a b : E) → value (c a b) ≡ both floats op (value a) (value b))
        → (n : ℕ) (f : E → Result E) → FoldsBelow n f
        → (a b : E) → max (size floats a) (size floats b) ≤ n
        → Folds (f a >>= λ lhs. f b >>= λ rhs. ok (c lhs rhs)) (value (c a b))
    unfolding both
    binary-Folds c op law n f h a b k v hv =
        let (x, y, hx, hy, e) = both-eq-ok floats op (value a) (value b) v (sym (law a b) ∙ hv) in
        let (a', fa, ha) = h a (omega (arith, k)) x hx in
        let (b', fb, hb) = h b (omega (arith, k)) y hy in
        (c a' b', rw (fa, fb) refl, law a' b' ∙ rw (ha, hb) e)

    unary-Folds :
        (c : E → E) (op : Result V → Result V)
        → ((a : E) → value (c a) ≡ op (value a))
        → ((r : Result V) (v : V) → op r ≡ ok v → (x : V) × (r ≡ ok x))
        → (n : ℕ) (f : E → Result E) → FoldsBelow n f
        → (a : E) → size floats a ≤ n
        → Folds (f a >>= λ inner. ok (c inner)) (value (c a))
    unary-Folds c op law strict n f h a k v hv =
        let (x, hx) = strict (value a) v (sym (law a) ∙ hv) in
        let (a', fa, ha) = h a k x hx in
        (c a', rw fa refl, law a' ∙ ap op (ha ∙ sym hx) ∙ sym (law a) ∙ hv)

    >>=-strict :
        (next : V → Result V) (r : Result V) (v : V) → (r >>= next) ≡ ok v → (x : V) × (r ≡ ok x)
    >>=-strict next r v e = let (x, hx, _) = >>=-eq-ok r next e in (x, hx)

    is_result-strict :
        (w : V) (r : Result V) (v : V) → is_result floats w r ≡ ok v → (x : V) × (r ≡ ok x)
    unfolding is_result
    is_result-strict null r v e = >>=-strict (λ x. ok (boolean (is_null floats x))) r v e
    is_result-strict (float f) r v e = elim (Bool-cases (floats.is_nan f)) [
      | inl nan ↦ >>=-strict (is_nan_value floats) r v (sym (rw nan refl) ∙ e)
      | inr nan ↦ panic-ne (sym (rw nan refl) ∙ e)
    ]
    is_result-strict _ r v e = panic-ne e

    descend-Folds :
        (n : ℕ) (f : E → Result E)
        → FoldsBelow n f
        → (e : E) → breadth floats e ≤ n
        → Folds (descend floats f e) (value e)
    unfolding descend evaluate breadth
    descend-Folds n f h (constant w) k = λ v hv. (constant w, refl, hv)
    descend-Folds n f h (column i) k = λ v hv. (column i, refl, hv)
    descend-Folds n f h (and a b) k = binary-Folds and (and_values floats) (λ a b. refl) n f h a b k
    descend-Folds n f h (or a b) k = binary-Folds or (or_values floats) (λ a b. refl) n f h a b k
    descend-Folds n f h (equal a b) k =
        binary-Folds equal (equal_values floats) (λ a b. refl) n f h a b k
    descend-Folds n f h (greater_than a b) k =
        binary-Folds greater_than (greater_than_values floats) (λ a b. refl) n f h a b k
    descend-Folds n f h (less_than a b) k =
        binary-Folds less_than (less_than_values floats) (λ a b. refl) n f h a b k
    descend-Folds n f h (add a b) k =
        binary-Folds add (checked_add floats) (λ a b. refl) n f h a b k
    descend-Folds n f h (divide a b) k =
        binary-Folds divide (checked_div floats) (λ a b. refl) n f h a b k
    descend-Folds n f h (exponentiate a b) k =
        binary-Folds exponentiate (checked_pow floats) (λ a b. refl) n f h a b k
    descend-Folds n f h (multiply a b) k =
        binary-Folds multiply (checked_mul floats) (λ a b. refl) n f h a b k
    descend-Folds n f h (remainder a b) k =
        binary-Folds remainder (checked_rem floats) (λ a b. refl) n f h a b k
    descend-Folds n f h (subtract a b) k =
        binary-Folds subtract (checked_sub floats) (λ a b. refl) n f h a b k
    descend-Folds n f h (like a b) k =
        binary-Folds like (like_values floats is_match) (λ a b. refl) n f h a b k
    descend-Folds n f h (not a) k =
        unary-Folds not (λ r. r >>= not_value floats) (λ a. refl) (>>=-strict (not_value floats)) n
          f h a k
    descend-Folds n f h (factorial a) k =
        unary-Folds factorial (λ r. r >>= factorial_value floats) (λ a. refl)
          (>>=-strict (factorial_value floats)) n f h a k
    descend-Folds n f h (identity a) k =
        unary-Folds identity (λ r. r >>= identity_value floats) (λ a. refl)
          (>>=-strict (identity_value floats)) n f h a k
    descend-Folds n f h (negate a) k =
        unary-Folds negate (λ r. r >>= negate_value floats) (λ a. refl)
          (>>=-strict (negate_value floats)) n f h a k
    descend-Folds n f h (square_root a) k =
        unary-Folds square_root (λ r. r >>= square_root_value floats) (λ a. refl)
          (>>=-strict (square_root_value floats)) n f h a k
    descend-Folds n f h (is a w) k =
        unary-Folds (λ x. is x w) (is_result floats w) (λ a. refl) (is_result-strict w) n f h a k

    fold_logic-value :
        (e : E) (v : V) → value e ≡ ok v → value (fold_logic floats is_match e) ≡ ok v
    unfolding fold_logic evaluate
    fold_logic-value (and (constant (boolean false)) b) v h =
        false_and floats is_match (value b) v h
    fold_logic-value (and a (constant (boolean false))) v h =
        and_false floats is_match (value a) v h
    fold_logic-value (and (constant (boolean true)) b) v h = true_and floats is_match (value b) v h
    fold_logic-value (and a (constant (boolean true))) v h = and_true floats is_match (value a) v h
    fold_logic-value (or (constant (boolean true)) b) v h = true_or floats is_match (value b) v h
    fold_logic-value (or a (constant (boolean true))) v h = or_true floats is_match (value a) v h
    fold_logic-value (or (constant (boolean false)) b) v h = false_or floats is_match (value b) v h
    fold_logic-value (or a (constant (boolean false))) v h = or_false floats is_match (value a) v h
    fold_logic-value e v h = h

    fold-Folds : (e : E) → Folds (fold floats is_match e) (value e)
    unfolding fold contains evaluate
    fold-Folds e v hv = elim (Bool-cases (walk floats (no_column floats is_match) e)) [
      | inl h ↦ (constant v, (rw (h, sym (evaluate-none floats is_match row e h), hv) refl), refl)
      | inr h ↦ (fold_logic floats is_match e, (rw h refl), fold_logic-value e v hv)
    ]

    transform-FoldsBelow : (n : ℕ) → FoldsBelow n (transform floats n ok (fold floats is_match))
    unfolding transform
    transform-FoldsBelow zero e k v hv = absurd (omega (arith, breadth-lt-size floats e, k))
    transform-FoldsBelow (suc n) e k v hv =
        let below = transform floats n ok (fold floats is_match) in
        let (d, hd, vd) =
          descend-Folds n below (transform-FoldsBelow n) e
            (omega (arith, breadth-lt-size floats e, k)) v hv in
        let (e', he, ve) = fold-Folds d v vd in (e', rw hd he, ve)

    -- In a row in which an expression has a value, folding its constants succeeds, and what it
    -- gives has the same value.
    pub fold_all_lem :
        (e : Expression floats) (v : Value floats)
        → evaluate floats is_match row e ≡ ok v
        → (e' : Expression floats) × (fold_all floats is_match e ≡ ok e')
          × (evaluate floats is_match row e' ≡ ok v)
    unfolding fold_all
    fold_all_lem e v hv = transform-FoldsBelow (size floats e) e (omega arith) v hv
