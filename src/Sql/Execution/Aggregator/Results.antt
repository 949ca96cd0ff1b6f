-- ===== src/Sql/Execution/Aggregator/Results.antt =====
-- src/sql/execution/aggregator.rs: the value of an accumulator after the values of a column.
use toydb.Prelude.{
  ℕ, suc, ◌+◌, ◌<◌, ◌≡◌, refl, ap, ◌∙◌, Bool, true, false, not, Option, none, some, List, [], ◌∷◌,
  length, if◌then◌else◌, inl, inr, Bool-cases, arith,
}
use toydb.Prelude.Int.{ℤ, pos, negsuc, ◌+ℤ◌, quot, eqℤ, fits_i64, i64_bound, i64_min}
use toydb.Error.{ok, err, invalid_input, ◌>>=◌}
use toydb.Sql.Types.Value.{Floats, Value, integer, checked_div, arithmetic, divide}
use toydb.Sql.Types.Expression.{Expression}
use toydb.Sql.Planner.Aggregate.{Aggregate}
use toydb.Sql.Execution.Aggregator.{
  Accumulator, average, count, max, min, sum, accumulator, add_value, add, value,
}
use toydb.Sql.Execution.Aggregator.Column.{
  defined, total, partial_sums_fit, overflows, entry, aggregate_of, after, unless, aggregated,
}
use toydb.Sql.Execution.Aggregator.Accumulated.{
  add-integers, after-count, after-average, after-sum, after-max, after-min,
}

zero_add : (n : ℕ) → 0 + n ≡ n
zero_add n = omega arith

module _ (floats : Floats) where
  abbrev V : Type 0
  V = Value floats

  abbrev A : Type 0
  A = Accumulator floats

  value-unless :
      (b : Bool) (acc : A) (v : V)
      → value floats acc ≡ ok v
      → (unless floats b acc >>= value floats) ≡ (if not b then err invalid_input else ok v)
  unfolding unless
  value-unless true acc v h = h
  value-unless false acc v h = refl

  suc-nonzero : (n : ℕ) → eqℤ (pos (suc n)) (pos 0) ≡ false
  unfolding eqℤ
  suc-nonzero n = ground arith

  positive-ne : (n : ℕ) → eqℤ (pos (suc n)) (negsuc 0) ≡ false
  unfolding eqℤ
  positive-ne n = refl

  divide-positive :
      (op : ℤ → ℤ → ℤ) (a : ℤ) (n : ℕ)
      → divide floats op a (pos (suc n)) ≡ ok (integer (op a (pos (suc n))))
  unfolding divide
  divide-positive op a n = elim (Bool-cases (eqℤ a i64_min)) [
    | inl h ↦ rw (suc-nonzero n, positive-ne n, h) refl
    | inr h ↦ rw (suc-nonzero n, h) refl
  ]

  value-average :
      (e : Expression floats) (is : List ℤ)
      → value floats (average (pos (length is)) (integer (total (pos 0) is)))
        ≡ ok (aggregate_of floats (Aggregate.average e) is)
  unfolding value aggregate_of checked_div arithmetic
  value-average e [] = refl
  value-average e (i ∷ is) = divide-positive quot (total (pos 0) (i ∷ is)) (length is)

  after-sum_none :
      (e : Expression floats) (os : List (Option ℤ))
      → (after floats (sum none) os >>= value floats)
        ≡ aggregated floats (Aggregate.sum e) (defined os)
  unfolding after add add_value entry defined total partial_sums_fit overflows aggregated
      aggregate_of unless value
  after-sum_none e [] = refl
  after-sum_none e (none ∷ os) = after-sum_none e os
  after-sum_none e (some i ∷ os) =
      let s = pos 0 +ℤ i in
      elim (Bool-cases (fits_i64 s)) [
        | inl h ↦
            rw (add-integers floats (pos 0) i, h)
              (ap (λ r. r >>= value floats) (after-sum floats s os)
                ∙ value-unless (partial_sums_fit s (defined os))
                    (sum (some (integer (total s (defined os))))) (integer (total s (defined os)))
                    refl)
        | inr h ↦ rw (add-integers floats (pos 0) i, h) refl
      ]

  after-max_none :
      (e : Expression floats) (os : List (Option ℤ))
      → (after floats (max none) os >>= value floats)
        ≡ aggregated floats (Aggregate.max e) (defined os)
  unfolding after add add_value entry defined overflows aggregated aggregate_of value
  after-max_none e [] = refl
  after-max_none e (none ∷ os) = after-max_none e os
  after-max_none e (some i ∷ os) = ap (λ r. r >>= value floats) (after-max floats i os)

  after-min_none :
      (e : Expression floats) (os : List (Option ℤ))
      → (after floats (min none) os >>= value floats)
        ≡ aggregated floats (Aggregate.min e) (defined os)
  unfolding after add add_value entry defined overflows aggregated aggregate_of value
  after-min_none e [] = refl
  after-min_none e (none ∷ os) = after-min_none e os
  after-min_none e (some i ∷ os) = ap (λ r. r >>= value floats) (after-min floats i os)

  after-count_zero :
      (e : Expression floats) (os : List (Option ℤ))
      → length os < i64_bound
      → (after floats (count (pos 0)) os >>= value floats)
        ≡ aggregated floats (Aggregate.count e) (defined os)
  unfolding overflows aggregated aggregate_of value
  after-count_zero e os h =
      ap (λ r. r >>= value floats) (after-count floats 0 os (omega (arith, h)))
      ∙ ap (λ n. value floats (count (pos n))) (zero_add (length (defined os)))

  after-average_zero :
      (e : Expression floats) (os : List (Option ℤ))
      → length os < i64_bound
      → (after floats (average (pos 0) (integer (pos 0))) os >>= value floats)
        ≡ aggregated floats (Aggregate.average e) (defined os)
  unfolding overflows aggregated
  after-average_zero e os h =
      ap (λ r. r >>= value floats) (after-average floats 0 (pos 0) os (omega (arith, h)))
      ∙ ap
          (λ n.
            unless floats (partial_sums_fit (pos 0) (defined os))
              (average (pos n) (integer (total (pos 0) (defined os))))
            >>= value floats)
          (zero_add (length (defined os)))
      ∙ value-unless (partial_sums_fit (pos 0) (defined os)) _ _ (value-average e (defined os))

  -- An accumulator that a column was added to has the result of the aggregate function.
  pub after-aggregated :
      (a : Aggregate floats) (os : List (Option ℤ))
      → length os < i64_bound
      → (after floats (accumulator floats a) os >>= value floats) ≡ aggregated floats a (defined os)
  unfolding accumulator
  after-aggregated (Aggregate.count e) os h = after-count_zero e os h
  after-aggregated (Aggregate.average e) os h = after-average_zero e os h
  after-aggregated (Aggregate.sum e) os h = after-sum_none e os
  after-aggregated (Aggregate.max e) os h = after-max_none e os
  after-aggregated (Aggregate.min e) os h = after-min_none e os
