-- ===== src/Sql/Types/Expression/Transform.antt =====
-- src/sql/types/expression.rs: transformations of expressions that keep their values, and end.
use toydb.Prelude.{ℕ, zero, suc, ◌≤◌, ◌<◌, max, ◌≡◌, refl, arith}
use toydb.Error.{Result, ok, ◌>>=◌}
use toydb.Sql.Types.Value.{Floats}
use toydb.Sql.Types.Expression.{
  Expression, constant, column, and, or, equal, greater_than, less_than, add, divide, exponentiate,
  multiply, remainder, subtract, like, not, factorial, identity, negate, square_root, is, descend,
  transform, size,
}

module _ (floats : Floats) where
  abbrev E : Type 0
  E = Expression floats

  -- The children of an expression have at most so many nodes.
  unfoldable pub breadth : Expression floats → ℕ
  breadth (constant v) = 0
  breadth (column i) = 0
  breadth (and a b) = max (size floats a) (size floats b)
  breadth (or a b) = max (size floats a) (size floats b)
  breadth (equal a b) = max (size floats a) (size floats b)
  breadth (greater_than a b) = max (size floats a) (size floats b)
  breadth (less_than a b) = max (size floats a) (size floats b)
  breadth (add a b) = max (size floats a) (size floats b)
  breadth (divide a b) = max (size floats a) (size floats b)
  breadth (exponentiate a b) = max (size floats a) (size floats b)
  breadth (multiply a b) = max (size floats a) (size floats b)
  breadth (remainder a b) = max (size floats a) (size floats b)
  breadth (subtract a b) = max (size floats a) (size floats b)
  breadth (like a b) = max (size floats a) (size floats b)
  breadth (not a) = size floats a
  breadth (factorial a) = size floats a
  breadth (identity a) = size floats a
  breadth (negate a) = size floats a
  breadth (square_root a) = size floats a
  breadth (is a v) = size floats a

  pub breadth-lt-size : (e : Expression floats) → breadth e < size floats e
  unfolding breadth size
  breadth-lt-size (constant v) = omega arith
  breadth-lt-size (and a b) = omega arith
  breadth-lt-size (not a) = omega arith
  breadth-lt-size _ = omega arith

  -- A function succeeds on the expressions of at most so many nodes.
  unfoldable pub SucceedsBelow : ℕ → (Expression floats → Result (Expression floats)) → Type 0
  SucceedsBelow n f = (e : E) → size floats e ≤ n → (e' : E) × (f e ≡ ok e')

  binary-ok :
      (c : E → E → E) (f : E → Result E) (n : ℕ) (a b : E)
      → SucceedsBelow n f
      → max (size floats a) (size floats b) ≤ n
      → (e' : E) × ((f a >>= λ lhs. f b >>= λ rhs. ok (c lhs rhs)) ≡ ok e')
  unfolding SucceedsBelow
  binary-ok c f n a b h k =
      let (x, hx) = h a (omega (arith, k)) in
      let (y, hy) = h b (omega (arith, k)) in (c x y, rw (hx, hy) refl)

  unary-ok :
      (c : E → E) (f : E → Result E) (n : ℕ) (a : E)
      → SucceedsBelow n f
      → size floats a ≤ n
      → (e' : E) × ((f a >>= λ inner. ok (c inner)) ≡ ok e')
  unfolding SucceedsBelow
  unary-ok c f n a h k = let (x, hx) = h a k in (c x, rw hx refl)

  descend-ok :
      (f : E → Result E) (n : ℕ) (e : E)
      → SucceedsBelow n f
      → breadth e ≤ n
      → (e' : E) × (descend floats f e ≡ ok e')
  unfolding descend breadth
  descend-ok f n (constant v) h k = (constant v, refl)
  descend-ok f n (column i) h k = (column i, refl)
  descend-ok f n (and a b) h k = binary-ok and f n a b h k
  descend-ok f n (or a b) h k = binary-ok or f n a b h k
  descend-ok f n (equal a b) h k = binary-ok equal f n a b h k
  descend-ok f n (greater_than a b) h k = binary-ok greater_than f n a b h k
  descend-ok f n (less_than a b) h k = binary-ok less_than f n a b h k
  descend-ok f n (add a b) h k = binary-ok add f n a b h k
  descend-ok f n (divide a b) h k = binary-ok divide f n a b h k
  descend-ok f n (exponentiate a b) h k = binary-ok exponentiate f n a b h k
  descend-ok f n (multiply a b) h k = binary-ok multiply f n a b h k
  descend-ok f n (remainder a b) h k = binary-ok remainder f n a b h k
  descend-ok f n (subtract a b) h k = binary-ok subtract f n a b h k
  descend-ok f n (like a b) h k = binary-ok like f n a b h k
  descend-ok f n (not a) h k = unary-ok not f n a h k
  descend-ok f n (factorial a) h k = unary-ok factorial f n a h k
  descend-ok f n (identity a) h k = unary-ok identity f n a h k
  descend-ok f n (negate a) h k = unary-ok negate f n a h k
  descend-ok f n (square_root a) h k = unary-ok square_root f n a h k
  descend-ok f n (is a v) h k = unary-ok (λ x. is x v) f n a h k

  -- A rule whose results have smaller children than the expression.
  unfoldable pub Shrinks : (Expression floats → Expression floats) → Type 0
  Shrinks rule = (e : E) → breadth (rule e) < size floats e

  -- With a shrinking rule, as many levels as nodes are enough.
  pub transform-SucceedsBelow :
      (rule : Expression floats → Expression floats)
      → Shrinks rule
      → (n : ℕ) → SucceedsBelow n (transform floats n (λ e. ok (rule e)) ok)
  unfolding SucceedsBelow Shrinks transform
  transform-SucceedsBelow rule h zero e k = absurd (omega (arith, h e, k))
  transform-SucceedsBelow rule h (suc n) e k =
      let (e', he) =
        descend-ok (transform floats n (λ e. ok (rule e)) ok) n (rule e)
          (transform-SucceedsBelow rule h n) (omega (arith, h e, k)) in
      (e', rw he refl)
