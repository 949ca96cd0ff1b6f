-- ===== src/Sql/Types/Expression/Normal.antt =====
-- src/sql/types/expression.rs: the normal forms, negation (NNF) and conjunctive (CNF).
use toydb.Prelude.{◌≡◌, refl, ap, ◌∙◌, Bool, true, false, arith}
use toydb.Error.{Result, ok, ◌>>=◌, >>=-eq-ok}
use toydb.Encoding.Bytes.{Bytes}
use toydb.Sql.Types.Value.{Floats, Value, boolean}
use toydb.Sql.Types.Operators.{and_values, or_values, not_value}
use toydb.Sql.Types.Expression.{
  Expression, and, or, not, both, evaluate, transform, size, push_not, into_nnf, distribute,
  into_cnf,
}
use toydb.Sql.Types.Expression.Meaning.{Keeps, Keeps-trans, transform-Keeps}
use toydb.Sql.Types.Expression.Transform.{
  Shrinks, SucceedsBelow, transform-SucceedsBelow, breadth, breadth-lt-size,
}

module _ (floats : Floats) where
  abbrev E : Type 0
  E = Expression floats

  abbrev V : Type 0
  V = Value floats

  not-and_values :
      (x y v : V)
      → (and_values floats x y >>= not_value floats) ≡ ok v
      → both floats (or_values floats) (not_value floats x) (not_value floats y) ≡ ok v
  unfolding and_values or_values not_value both
  not-and_values (boolean true) (boolean true) v h = h
  not-and_values (boolean false) (boolean true) v h = h
  not-and_values _ _ v h = ground arith

  not-or_values :
      (x y v : V)
      → (or_values floats x y >>= not_value floats) ≡ ok v
      → both floats (and_values floats) (not_value floats x) (not_value floats y) ≡ ok v
  unfolding and_values or_values not_value both
  not-or_values (boolean true) (boolean true) v h = h
  not-or_values (boolean false) (boolean true) v h = h
  not-or_values _ _ v h = ground arith

  not-and_results :
      (r s : Result V) {x y w v : V}
      → r ≡ ok x
      → s ≡ ok y
      → and_values floats x y ≡ ok w
      → not_value floats w ≡ ok v
      → both floats (or_values floats) (r >>= not_value floats) (s >>= not_value floats) ≡ ok v
  not-and_results r s {x} {y} {w} {v} hx hy hw e = rw (hx, hy) (not-and_values x y v (rw hw e))

  not-or_results :
      (r s : Result V) {x y w v : V}
      → r ≡ ok x
      → s ≡ ok y
      → or_values floats x y ≡ ok w
      → not_value floats w ≡ ok v
      → both floats (and_values floats) (r >>= not_value floats) (s >>= not_value floats) ≡ ok v
  not-or_results r s {x} {y} {w} {v} hx hy hw e = rw (hx, hy) (not-or_values x y v (rw hw e))

  not-not_value : (x v : V) → (not_value floats x >>= not_value floats) ≡ ok v → x ≡ v
  unfolding not_value
  not-not_value (boolean true) v h = ground arith
  not-not_value (boolean false) v h = ground arith
  not-not_value _ v h = ground arith

  push_not-Shrinks : Shrinks floats (push_not floats)
  unfolding Shrinks push_not breadth size
  push_not-Shrinks (not (and a b)) = omega arith
  push_not-Shrinks (not (not e)) = omega (arith, breadth-lt-size floats e)
  push_not-Shrinks _ = omega arith

  distribute-Shrinks : Shrinks floats (distribute floats)
  unfolding Shrinks distribute breadth size
  distribute-Shrinks (or (and l r) c) = omega arith
  distribute-Shrinks (or c (and l r)) = omega arith
  distribute-Shrinks (not e) = omega arith
  distribute-Shrinks e = omega (arith, breadth-lt-size floats e)

  or-and_values :
      (x y z v : V)
      → both floats (or_values floats) (and_values floats x y) (ok z) ≡ ok v
      → both floats (and_values floats) (or_values floats x z) (or_values floats y z) ≡ ok v
  unfolding and_values or_values both
  or-and_values (boolean true) (boolean true) (boolean true) v h = h
  or-and_values (boolean true) (boolean false) (boolean true) v h = h
  or-and_values (boolean true) (boolean true) (boolean false) v h = h
  or-and_values (boolean false) (boolean true) (boolean true) v h = h
  or-and_values _ _ _ v h = ground arith

  or_values-and :
      (x y z v : V)
      → both floats (or_values floats) (ok x) (and_values floats y z) ≡ ok v
      → both floats (and_values floats) (or_values floats x y) (or_values floats x z) ≡ ok v
  unfolding and_values or_values both
  or_values-and (boolean true) (boolean true) (boolean true) v h = h
  or_values-and (boolean true) (boolean false) (boolean true) v h = h
  or_values-and (boolean true) (boolean true) (boolean false) v h = h
  or_values-and (boolean false) (boolean true) (boolean true) v h = h
  or_values-and _ _ _ v h = ground arith

  or-and_results :
      (r s t : Result V) {x y z w v : V}
      → r ≡ ok x
      → s ≡ ok y
      → t ≡ ok z
      → and_values floats x y ≡ ok w
      → or_values floats w z ≡ ok v
      → both floats
          (and_values floats)
          (both floats (or_values floats) r t)
          (both floats (or_values floats) s t)
        ≡ ok v
  unfolding both
  or-and_results r s t {x} {y} {z} {w} {v} hx hy hz hw e =
      rw (hx, hy, hz) (or-and_values x y z v (rw hw e))

  or_results-and :
      (r s t : Result V) {x y z w v : V}
      → r ≡ ok x
      → s ≡ ok y
      → t ≡ ok z
      → and_values floats y z ≡ ok w
      → or_values floats x w ≡ ok v
      → both floats
          (and_values floats)
          (both floats (or_values floats) r s)
          (both floats (or_values floats) r t)
        ≡ ok v
  unfolding both
  or_results-and r s t {x} {y} {z} {w} {v} hx hy hz hw e =
      rw (hx, hy, hz) (or_values-and x y z v (rw hw e))

  pub both-eq-ok :
      (op : V → V → Result V) (r s : Result V) (w : V)
      → both floats op r s ≡ ok w
      → (x y : V) × (r ≡ ok x) × (s ≡ ok y) × (op x y ≡ ok w)
  unfolding both
  both-eq-ok op r s w e =
      let (x, hx, e1) = >>=-eq-ok r (λ x. s >>= op x) e in
      let (y, hy, e2) = >>=-eq-ok s (op x) e1 in (x, y, hx, hy, e2)

  module _ (is_match : Bytes → Bytes → Result Bool) where
    -- Under De Morgan's laws and the double negation.
    push_not-Keeps : (e : E) → Keeps floats is_match e (push_not floats e)
    unfolding Keeps push_not evaluate
    push_not-Keeps (not (and a b)) row v e =
        let r : Result V = evaluate floats is_match row a in
        let s : Result V = evaluate floats is_match row b in
        let (w, hw, e1) = >>=-eq-ok (both floats (and_values floats) r s) (not_value floats) e in
        let (x, y, hx, hy, e2) = both-eq-ok (and_values floats) r s w hw in
        not-and_results r s hx hy e2 e1
    push_not-Keeps (not (or a b)) row v e =
        let r : Result V = evaluate floats is_match row a in
        let s : Result V = evaluate floats is_match row b in
        let (w, hw, e1) = >>=-eq-ok (both floats (or_values floats) r s) (not_value floats) e in
        let (x, y, hx, hy, e2) = both-eq-ok (or_values floats) r s w hw in
        not-or_results r s hx hy e2 e1
    push_not-Keeps (not (not a)) row v e =
        let r : Result V = evaluate floats is_match row a in
        let (w, hw, e1) = >>=-eq-ok (r >>= not_value floats) (not_value floats) e in
        let (x, hx, e2) = >>=-eq-ok r (not_value floats) hw in
        hx ∙ ap ok (not-not_value x v (rw e2 e1))
    push_not-Keeps e row v h = h

    distribute-Keeps : (e : E) → Keeps floats is_match e (distribute floats e)
    unfolding Keeps distribute evaluate
    distribute-Keeps (or (and a b) c) row v e =
        let r : Result V = evaluate floats is_match row a in
        let s : Result V = evaluate floats is_match row b in
        let t : Result V = evaluate floats is_match row c in
        let (w, z, hw, hz, e1) =
          both-eq-ok (or_values floats) (both floats (and_values floats) r s) t v e in
        let (x, y, hx, hy, e2) = both-eq-ok (and_values floats) r s w hw in
        or-and_results r s t hx hy hz e2 e1
    distribute-Keeps (or c (and a b)) row v e =
        let r : Result V = evaluate floats is_match row a in
        let s : Result V = evaluate floats is_match row b in
        let t : Result V = evaluate floats is_match row c in
        let (x, w, hx, hw, e1) =
          both-eq-ok (or_values floats) t (both floats (and_values floats) r s) v e in
        let (y, z, hy, hz, e2) = both-eq-ok (and_values floats) r s w hw in
        or_results-and t r s hx hy hz e2 e1
    distribute-Keeps (not a) row v h = h
    distribute-Keeps e row v h = h

    -- A rule that shrinks and keeps values, applied with enough levels.
    transform_all :
        (rule : E → E)
        → Shrinks floats rule
        → ((e : E) → Keeps floats is_match e (rule e))
        → (e : E)
        → (e' : E) × (transform floats (size floats e) (λ e. ok (rule e)) ok e ≡ ok e')
          × Keeps floats is_match e e'
    unfolding SucceedsBelow
    transform_all rule small keeps e =
        let (e', h) = transform-SucceedsBelow floats rule small (size floats e) e (omega arith) in
        (e', h, transform-Keeps floats is_match rule keeps (size floats e) e e' h)

    -- The negation normal form of an expression exists, and has the value of the expression in
    -- every row in which the expression has one.
    pub into_nnf_lem :
        (e : Expression floats)
        → (e' : Expression floats) × (into_nnf floats e ≡ ok e') × Keeps floats is_match e e'
    unfolding into_nnf
    into_nnf_lem e =
        let (e', h, k) = transform_all (push_not floats) push_not-Shrinks push_not-Keeps e in
        (e', rw h refl, k)

    -- The conjunctive normal form of an expression exists, and has the value of the expression
    -- in every row in which the expression has one.
    pub into_cnf_lem :
        (e : Expression floats)
        → (e' : Expression floats) × (into_cnf floats e ≡ ok e') × Keeps floats is_match e e'
    unfolding into_cnf
    into_cnf_lem e =
        let (nnf, h, k) = into_nnf_lem e in
        let (cnf, h', k') =
          transform_all (distribute floats) distribute-Shrinks distribute-Keeps nnf in
        (cnf, rw (h, h') refl, Keeps-trans floats is_match e nnf cnf k k')
