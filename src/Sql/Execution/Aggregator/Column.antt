-- ===== src/Sql/Execution/Aggregator/Column.antt =====
-- src/sql/execution/aggregator.rs: the aggregates of a column of integers and NULLs.
use toydb.Prelude.{
  Bool, true, false, not, ◌&&◌, Option, none, some, List, [], ◌∷◌, length, if◌then◌else◌,
}
use toydb.Prelude.Int.{ℤ, pos, ◌+ℤ◌, quot, ltℤ, fits_i64}
use toydb.Error.{Result, ok, err, invalid_input, ◌>>=◌}
use toydb.Sql.Types.Value.{Floats, Value, null, integer}
use toydb.Sql.Planner.Aggregate.{Aggregate}
use toydb.Sql.Execution.Aggregator.{Accumulator, add}

-- The integers of a column.
unfoldable pub defined : List (Option ℤ) → List ℤ
defined [] = []
defined (none ∷ os) = defined os
defined (some i ∷ os) = i ∷ defined os

unfoldable pub total : ℤ → List ℤ → ℤ
total s [] = s
total s (i ∷ is) = total (s +ℤ i) is

-- Every partial sum fits in 64 bits.
unfoldable pub partial_sums_fit : ℤ → List ℤ → Bool
partial_sums_fit s [] = true
partial_sums_fit s (i ∷ is) = fits_i64 (s +ℤ i) && partial_sums_fit (s +ℤ i) is

unfoldable pub greatest : ℤ → List ℤ → ℤ
greatest m [] = m
greatest m (i ∷ is) = greatest (if ltℤ m i then i else m) is

unfoldable pub least : ℤ → List ℤ → ℤ
least m [] = m
least m (i ∷ is) = least (if ltℤ i m then i else m) is

-- The integers that make an aggregate function return an error.
unfoldable pub overflows : {floats : Floats} → Aggregate floats → List ℤ → Bool
overflows (Aggregate.average _) is = not (partial_sums_fit (pos 0) is)
overflows (Aggregate.sum _) is = not (partial_sums_fit (pos 0) is)
overflows (Aggregate.count _) is = false
overflows (Aggregate.max _) is = false
overflows (Aggregate.min _) is = false

module _ (floats : Floats) where
  abbrev V : Type 0
  V = Value floats

  abbrev A : Type 0
  A = Accumulator floats

  unfoldable pub entry : Option ℤ → Value floats
  entry none = null
  entry (some i) = integer i

  -- What SQL says of an aggregate function: of no integers it is NULL, unless it counts them.
  unfoldable pub aggregate_of : Aggregate floats → List ℤ → Value floats
  aggregate_of (Aggregate.count _) is = integer (pos (length is))
  aggregate_of (Aggregate.average _) (i ∷ is) =
      integer (quot (total (pos 0) (i ∷ is)) (pos (length (i ∷ is))))
  aggregate_of (Aggregate.sum _) (i ∷ is) = integer (total (pos 0) (i ∷ is))
  aggregate_of (Aggregate.max _) (i ∷ is) = integer (greatest i is)
  aggregate_of (Aggregate.min _) (i ∷ is) = integer (least i is)
  aggregate_of _ [] = null

  -- The accumulator after the values of a column.
  unfoldable pub after : A → List (Option ℤ) → Result A
  after acc [] = ok acc
  after acc (o ∷ os) = add floats (entry o) acc >>= λ next. after next os

  unfoldable pub unless : Bool → A → Result A
  unless true acc = ok acc
  unless false acc = err invalid_input

  -- The result of an aggregate function: an error if a sum does not fit in 64 bits.
  unfoldable pub aggregated : Aggregate floats → List ℤ → Result (Value floats)
  aggregated a is = if overflows a is then err invalid_input else ok (aggregate_of a is)
