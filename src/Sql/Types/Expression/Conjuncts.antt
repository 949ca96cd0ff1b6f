-- ===== src/Sql/Types/Expression/Conjuncts.antt =====
-- src/sql/types/expression.rs: the conjunctive normal form as a list of its parts.
use toydb.Prelude.{
  ℕ, zero, suc, ◌+◌, ◌≤◌, ◌≡◌, refl, sym, Bool, true, false, some, List, [], ◌∷◌, All, arith,
}
use toydb.Error.{Result, ok, >>=-eq-ok, ok_injective, panic-ne}
use toydb.Encoding.Bytes.{Bytes}
use toydb.Sql.Types.Value.{Floats, Value, boolean}
use toydb.Sql.Types.Operators.{and_values}
use toydb.Sql.Types.Expression.{
  Expression, and, both, evaluate, size, pop_ands, into_cnf_vec, and_with, and_vec,
}
use toydb.Sql.Types.Expression.Meaning.{both-Extends, Keeps, Keeps-refl, Keeps-trans}
use toydb.Sql.Types.Expression.Transform.{breadth-lt-size}
use toydb.Sql.Types.Expression.Normal.{both-eq-ok, into_cnf_lem}

module _ (floats : Floats) where
  abbrev E : Type 0
  E = Expression floats

  abbrev V : Type 0
  V = Value floats

  and_values_assoc :
      (x y z v : V)
      → both floats (and_values floats) (ok x) (and_values floats y z) ≡ ok v
      → both floats (and_values floats) (and_values floats x y) (ok z) ≡ ok v
  unfolding and_values both
  and_values_assoc (boolean true) (boolean true) (boolean true) v h = h
  and_values_assoc (boolean true) (boolean false) (boolean true) v h = h
  and_values_assoc (boolean true) (boolean true) (boolean false) v h = h
  and_values_assoc (boolean false) (boolean true) (boolean true) v h = h
  and_values_assoc _ _ _ v h = ground arith

  and_results_assoc :
      (r s t : Result V) {x y z w v : V}
      → r ≡ ok x
      → s ≡ ok y
      → t ≡ ok z
      → and_values floats y z ≡ ok w
      → and_values floats x w ≡ ok v
      → both floats (and_values floats) (both floats (and_values floats) r s) t ≡ ok v
  unfolding both
  and_results_assoc r s t {x} {y} {z} {w} {v} hx hy hz hw e =
      rw (hx, hy, hz) (and_values_assoc x y z v (rw hw e))

  -- An expression whose outermost operator is AND.
  unfoldable pub is_and : Expression floats → Bool
  is_and (and a b) = true
  is_and _ = false

  unfoldable total : List E → ℕ
  total [] = 0
  total (e ∷ es) = size floats e + total es

  -- The loop ends, and leaves no AND at the top of a part.
  pop_ands-ok :
      (n : ℕ) (stack : List E)
      → total stack ≤ n
      → (es : List E) × (pop_ands floats n stack ≡ ok es) × All (λ e. is_and e ≡ false) es
  unfolding pop_ands total is_and size
  pop_ands-ok zero [] h = ([], refl, tt)
  pop_ands-ok (suc n) [] h = ([], refl, tt)
  pop_ands-ok zero (e ∷ stack) h = absurd (omega (arith, breadth-lt-size floats e, h))
  pop_ands-ok (suc n) (and a b ∷ stack) h = pop_ands-ok n (a ∷ b ∷ stack) (omega (arith, h))
  pop_ands-ok (suc n) (e ∷ stack) h =
      let (es, he, hs) = pop_ands-ok n stack (omega (arith, h, breadth-lt-size floats e)) in
      (e ∷ es, rw he refl, (refl, hs))

  module _ (is_match : Bytes → Bytes → Result Bool) where
    and-assoc-Keeps : (a b c : E) → Keeps floats is_match (and a (and b c)) (and (and a b) c)
    unfolding Keeps evaluate
    and-assoc-Keeps a b c row v e =
        let r : Result V = evaluate floats is_match row a in
        let s : Result V = evaluate floats is_match row b in
        let t : Result V = evaluate floats is_match row c in
        let (x, w, hx, hw, e1) =
          both-eq-ok floats (and_values floats) r (both floats (and_values floats) s t) v e in
        let (y, z, hy, hz, e2) = both-eq-ok floats (and_values floats) s t w hw in
        and_results_assoc r s t hx hy hz e2 e1

    and-Keeps : (a b e : E) → Keeps floats is_match a b → Keeps floats is_match (and a e) (and b e)
    unfolding Keeps evaluate
    and-Keeps a b e k row =
        let value : E → Result V = evaluate floats is_match row in
        both-Extends floats is_match (and_values floats) (value a) (value e) (value b) (value e)
          (k row) (λ v h. h)

    and_with-Keeps :
        (a b : E) (es : List E)
        → Keeps floats is_match a b
        → Keeps floats is_match (and_with floats a es) (and_with floats b es)
    unfolding and_with
    and_with-Keeps a b [] k = k
    and_with-Keeps a b (e ∷ es) k = and_with-Keeps (and a e) (and b e) es (and-Keeps a b e k)

    -- What is left of the stack, after an expression before it.
    pop_ands-after :
        (n : ℕ) (stack es : List E) (before : E)
        → pop_ands floats n stack ≡ ok es
        → Keeps floats is_match (and_with floats before stack) (and_with floats before es)
    unfolding pop_ands and_with
    pop_ands-after zero [] es before h =
        rw (sym (ok_injective h)) (Keeps-refl floats is_match before)
    pop_ands-after (suc n) [] es before h =
        rw (sym (ok_injective h)) (Keeps-refl floats is_match before)
    pop_ands-after zero (e ∷ stack) es before h = panic-ne h
    pop_ands-after (suc n) (and a b ∷ stack) es before h =
        Keeps-trans floats is_match (and_with floats (and before (and a b)) stack)
          (and_with floats (and (and before a) b) stack) (and_with floats before es)
          (and_with-Keeps (and before (and a b)) (and (and before a) b) stack
            (and-assoc-Keeps before a b))
          (pop_ands-after n (a ∷ b ∷ stack) es before h)
    pop_ands-after (suc n) (e ∷ stack) es before h =
        let (rest, hr, e1) = >>=-eq-ok (pop_ands floats n stack) (λ es. ok (e ∷ es)) h in
        rw (sym (ok_injective e1)) (pop_ands-after n stack rest (and before e) hr)

    pop_ands-Keeps :
        (n : ℕ) (e : E) (stack es : List E)
        → pop_ands floats n (e ∷ stack) ≡ ok es
        → (e' : E) × (and_vec floats es ≡ some e')
          × Keeps floats is_match (and_with floats e stack) e'
    unfolding pop_ands and_with and_vec
    pop_ands-Keeps zero e stack es h = panic-ne h
    pop_ands-Keeps (suc n) (and a b) stack es h = pop_ands-Keeps n a (b ∷ stack) es h
    pop_ands-Keeps (suc n) e stack es h =
        let (rest, hr, e1) = >>=-eq-ok (pop_ands floats n stack) (λ es. ok (e ∷ es)) h in
        (and_with floats e rest, rw (sym (ok_injective e1)) refl, pop_ands-after n stack rest e hr)

    -- The list of the parts of the conjunctive normal form exists, and is not empty; no part has
    -- AND at its top, and their conjunction has the value of the expression in every row in
    -- which the expression has one.
    pub into_cnf_vec_lem :
        (e : Expression floats)
        → (es : List (Expression floats)) × (e' : Expression floats) × (into_cnf_vec floats e
            ≡ ok es)
          × (and_vec floats es ≡ some e')
          × All (λ e. is_and e ≡ false) es
          × Keeps floats is_match e e'
    unfolding into_cnf_vec total and_with
    into_cnf_vec_lem e =
        let (cnf, h, k) = into_cnf_lem floats is_match e in
        let (es, h', parts) = pop_ands-ok (size floats cnf) (cnf ∷ []) (omega arith) in
        let (e', h'', k') = pop_ands-Keeps (size floats cnf) cnf [] es h' in
        (es, e', rw (h, h') refl, h'', parts, Keeps-trans floats is_match e cnf e' k k')
