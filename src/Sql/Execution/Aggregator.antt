-- ===== src/Sql/Execution/Aggregator.antt =====
-- src/sql/execution/aggregator.rs: the aggregation of rows in buckets. After an error the executor
-- drops the aggregator, so a failed method gives the error only.
pub mod Accumulated
pub mod Column
pub mod Results
pub mod Ungrouped
use Prim.Native.Nat.{Ordering}
use toydb.Prelude.{zero, Bool, Option, none, some, List, [], ◌∷◌, ◌++◌, map, if◌then◌else◌}
use toydb.Prelude.Int.{ℤ, pos, ◌+ℤ◌, wrap_i64}
use toydb.Error.{Result, ok, err, panic, ◌>>=◌}
use toydb.Encoding.Bytes.{Bytes}
use toydb.Sql.Types.Value.{Floats, Value, null, integer, checked_add, checked_div}
use toydb.Sql.Types.Order.{cmp, cmp_all, is_gt, is_lt}
use toydb.Sql.Types.Expression.{Row, Expression, evaluate}
use toydb.Sql.Planner.Aggregate.{Aggregate, expr}

-- `try_collect`
unfoldable pub collected : {A : Type 0} → List (Result A) → Result (List A)
collected [] = ok []
collected (r ∷ rs) = r >>= λ a. collected rs >>= λ rest. ok (a ∷ rest)

module _ (floats : Floats) where
  abbrev V : Type 0
  V = Value floats

  pub data Accumulator : Type 0 where
    average : (number : ℤ) (total : Value floats) → Accumulator
    count : ℤ → Accumulator
    max min sum : Option (Value floats) → Accumulator

  -- `Accumulator::new`
  unfoldable pub accumulator : Aggregate floats → Accumulator
  accumulator (Aggregate.average _) = average (pos 0) (integer (pos 0))
  accumulator (Aggregate.count _) = count (pos 0)
  accumulator (Aggregate.max _) = max none
  accumulator (Aggregate.min _) = min none
  accumulator (Aggregate.sum _) = sum none

  -- The addition of a value that is not NULL; a counter wraps around.
  unfoldable pub add_value : Accumulator → Value floats → Result Accumulator
  add_value (average number total) v =
      checked_add floats total v >>= λ t. ok (average (wrap_i64 (number +ℤ pos 1)) t)
  add_value (count number) v = ok (count (wrap_i64 (number +ℤ pos 1)))
  add_value (max none) v = ok (max (some v))
  add_value (max (some m)) v = ok (max (some (if is_gt (cmp floats v m) then v else m)))
  add_value (min none) v = ok (min (some v))
  add_value (min (some m)) v = ok (min (some (if is_lt (cmp floats v m) then v else m)))
  add_value (sum none) v = checked_add floats (integer (pos 0)) v >>= λ t. ok (sum (some t))
  add_value (sum (some total)) v = checked_add floats total v >>= λ t. ok (sum (some t))

  -- `Accumulator::add`: NULLs are ignored.
  unfoldable pub add : Value floats → Accumulator → Result Accumulator
  add null acc = ok acc
  add v acc = add_value acc v

  abbrev or_null : Option (Value floats) → Result (Value floats)
  or_null none = ok null
  or_null (some v) = ok v

  -- `Accumulator::value`
  unfoldable pub value : Accumulator → Result (Value floats)
  value (average (pos zero) total) = ok null
  value (average number total) = checked_div floats total (integer number)
  value (count number) = ok (integer number)
  value (max v) = or_null v
  value (min v) = or_null v
  value (sum v) = or_null v

  -- The map of the standard library, in the order of the keys.
  abbrev pub Buckets : Type 0
  Buckets = List (List (Value floats) × List Accumulator)

  pub record Aggregator : Type 0 where
    pub group_by : List (Expression floats)
    pub aggregates : List (Aggregate floats)
    pub buckets : Buckets

  unfoldable pub new : List (Expression floats) → List (Aggregate floats) → Aggregator
  new group_by aggregates = record { group_by = group_by; aggregates = aggregates; buckets = [] }

  module _ (act : List Accumulator → Result (List Accumulator)) where
    unfoldable pub at_bucket :
        Ordering
        → List (Value floats)
        → List Accumulator
        → List (Value floats) × List Accumulator
        → Buckets
        → Result Buckets
        → Result Buckets
    at_bucket Ordering.lt key fresh found rest later =
        act fresh >>= λ accs. ok ((key, accs) ∷ found ∷ rest)
    at_bucket Ordering.eq key fresh (k, old) rest later = act old >>= λ accs. ok ((k, accs) ∷ rest)
    at_bucket Ordering.gt key fresh found rest later = later >>= λ buckets. ok (found ∷ buckets)

    -- `entry(key).or_insert_with(fresh)`, and a change of the entry.
    unfoldable pub update_bucket : List (Value floats) → List Accumulator → Buckets → Result Buckets
    update_bucket key fresh [] = act fresh >>= λ accs. ok ((key, accs) ∷ [])
    update_bucket key fresh (found ∷ rest) =
        at_bucket (cmp_all floats key found.0) key fresh found rest (update_bucket key fresh rest)

  module _ (is_match : Bytes → Bytes → Result Bool) where
    -- The loop over the accumulators and the expressions; `zip_eq` panics if one list is longer.
    unfoldable pub add_each :
        Row floats → List (Aggregate floats) → List Accumulator → Result (List Accumulator)
    add_each row [] [] = ok []
    add_each row (a ∷ aggregates) (acc ∷ accs) =
        evaluate floats is_match (some row) (expr floats a) >>= λ v.
        add v acc >>= λ added. add_each row aggregates accs >>= λ rest. ok (added ∷ rest)
    add_each row _ _ = panic

    -- `Aggregator::add`
    unfoldable pub add_row : Aggregator → Row floats → Result Aggregator
    add_row self row =
        collected (map (evaluate floats is_match (some row)) self.group_by) >>= λ bucket.
        update_bucket (add_each row self.aggregates) bucket (map accumulator self.aggregates)
          self.buckets
        >>= λ buckets. ok (record self { buckets = buckets })

    unfoldable pub add_rows : List (Result (Row floats)) → Aggregator → Result Aggregator
    add_rows [] self = ok self
    add_rows (r ∷ rows) self = r >>= λ row. add_row self row >>= add_rows rows

  unfoldable pub bucket_row : List (Value floats) × List Accumulator → Result (Row floats)
  bucket_row (bucket, accs) = collected (map value accs) >>= λ vs. ok (bucket ++ vs)

  -- Without rows and without GROUP BY there is one row, of empty accumulators.
  unfoldable pub rows_of :
      Buckets → List (Expression floats) → List (Aggregate floats) → List (Result (Row floats))
  rows_of [] [] aggregates = collected (map (λ a. value (accumulator a)) aggregates) ∷ []
  rows_of buckets group_by aggregates = map bucket_row buckets

  unfoldable pub into_rows : Aggregator → List (Result (Row floats))
  into_rows self = rows_of self.buckets self.group_by self.aggregates
