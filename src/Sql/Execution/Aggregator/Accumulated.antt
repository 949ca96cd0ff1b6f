-- ===== src/Sql/Execution/Aggregator/Accumulated.antt =====
-- src/sql/execution/aggregator.rs: what an accumulator holds after the values of a column.
use toydb.Prelude.{
  ℕ, ◌+◌, ◌<◌, ◌≡◌, refl, ap, ◌∙◌, Bool, true, false, Option, none, some, List, [], ◌∷◌, length,
  if◌then◌else◌, inl, inr, Bool-cases, arith,
}
use toydb.Prelude.Int.{ℤ, pos, negsuc, ◌+ℤ◌, ltℤ, eqℤ, fits_i64, i64_bound, wrap_i64}
use toydb.Error.{ok, err, invalid_input}
use toydb.Sql.Types.Value.{
  Floats, Value, integer, checked_add, arithmetic, or_overflow, checked_add_i64, checked,
}
use toydb.Sql.Types.Order.{cmp, is_gt, is_lt}
use toydb.Sql.Execution.Aggregator.{Accumulator, average, count, max, min, sum, add_value, add}
use toydb.Sql.Execution.Aggregator.Column.{
  defined, total, partial_sums_fit, greatest, least, entry, after, unless,
}

module _ (floats : Floats) where
  abbrev V : Type 0
  V = Value floats

  abbrev A : Type 0
  A = Accumulator floats

  pub add-integers :
      (a b : ℤ)
      → checked_add floats (integer a) (integer b)
        ≡ (if fits_i64 (a +ℤ b) then ok (integer (a +ℤ b)) else err invalid_input)
  unfolding checked_add arithmetic checked_add_i64 checked or_overflow
  add-integers a b = elim (Bool-cases (fits_i64 (a +ℤ b))) [ inl e ↦ rw e refl | inr e ↦ rw e refl ]

  count_next : (n : ℕ) → n + 1 < i64_bound → wrap_i64 (pos n +ℤ pos 1) ≡ pos (n + 1)
  unfolding wrap_i64 ◌+ℤ◌
  count_next n h = ground (arith, h)

  pub after-count :
      (n : ℕ) (os : List (Option ℤ))
      → n + length os < i64_bound
      → after floats (count (pos n)) os ≡ ok (count (pos (n + length (defined os))))
  unfolding after add add_value entry defined
  after-count n [] h = ap (λ m. ok (count (pos m))) (omega arith)
  after-count n (none ∷ os) h = after-count n os (omega (arith, h))
  after-count n (some i ∷ os) h =
      rw (count_next n (omega (arith, h)))
        (after-count (n + 1) os (omega (arith, h)) ∙ ap (λ m. ok (count (pos m))) (omega arith))

  pub after-average :
      (n : ℕ) (s : ℤ) (os : List (Option ℤ))
      → n + length os < i64_bound
      → after floats (average (pos n) (integer s)) os
        ≡ unless floats
            (partial_sums_fit s (defined os))
            (average (pos (n + length (defined os))) (integer (total s (defined os))))
  unfolding after add add_value entry defined total partial_sums_fit unless
  after-average n s [] h = ap (λ m. ok (average (pos m) (integer s))) (omega arith)
  after-average n s (none ∷ os) h = after-average n s os (omega (arith, h))
  after-average n s (some i ∷ os) h = elim (Bool-cases (fits_i64 (s +ℤ i))) [
    | inl e ↦
        rw (add-integers s i, e, count_next n (omega (arith, h)))
          (after-average (n + 1) (s +ℤ i) os (omega (arith, h))
            ∙ ap
                (λ m.
                  unless floats (partial_sums_fit (s +ℤ i) (defined os))
                    (average (pos m) (integer (total (s +ℤ i) (defined os)))))
                (omega arith))
    | inr e ↦ rw (add-integers s i, e) refl
  ]

  pub after-sum :
      (s : ℤ) (os : List (Option ℤ))
      → after floats (sum (some (integer s))) os
        ≡ unless floats
            (partial_sums_fit s (defined os))
            (sum (some (integer (total s (defined os)))))
  unfolding after add add_value entry defined total partial_sums_fit unless
  after-sum s [] = refl
  after-sum s (none ∷ os) = after-sum s os
  after-sum s (some i ∷ os) = elim (Bool-cases (fits_i64 (s +ℤ i))) [
    | inl e ↦ rw (add-integers s i, e) (after-sum (s +ℤ i) os)
    | inr e ↦ rw (add-integers s i, e) refl
  ]

  is_gt-cmp : (a b : ℤ) → is_gt (cmp floats (integer a) (integer b)) ≡ ltℤ b a
  unfolding cmp ltℤ eqℤ
  is_gt-cmp (pos m) (pos n) = ground arith
  is_gt-cmp (pos m) (negsuc n) = refl
  is_gt-cmp (negsuc m) (pos n) = refl
  is_gt-cmp (negsuc m) (negsuc n) = ground arith

  is_lt-cmp : (a b : ℤ) → is_lt (cmp floats (integer a) (integer b)) ≡ ltℤ a b
  unfolding cmp
  is_lt-cmp a b = ground arith

  if-integer :
      (b : Bool) (i j : ℤ)
      → ◌≡◌ {A = V} (if b then integer i else integer j) (integer (if b then i else j))
  if-integer true i j = refl
  if-integer false i j = refl

  pub after-max :
      (m : ℤ) (os : List (Option ℤ))
      → after floats (max (some (integer m))) os
        ≡ ok (max (some (integer (greatest m (defined os)))))
  unfolding after add add_value entry defined greatest
  after-max m [] = refl
  after-max m (none ∷ os) = after-max m os
  after-max m (some i ∷ os) =
      rw (is_gt-cmp i m, if-integer (ltℤ m i) i m) (after-max (if ltℤ m i then i else m) os)

  pub after-min :
      (m : ℤ) (os : List (Option ℤ))
      → after floats (min (some (integer m))) os ≡ ok (min (some (integer (least m (defined os)))))
  unfolding after add add_value entry defined least
  after-min m [] = refl
  after-min m (none ∷ os) = after-min m os
  after-min m (some i ∷ os) =
      rw (is_lt-cmp i m, if-integer (ltℤ i m) i m) (after-min (if ltℤ i m then i else m) os)
