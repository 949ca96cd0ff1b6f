-- ===== src/Sql/Execution/Tests.antt =====
-- src/sql/execution: the theorems at concrete rows.
use toydb.Prelude.{◌≡◌, refl, Bool, true, false, Option, some, none, map, List, [], ◌∷◌, arith}
use toydb.Prelude.Int.{◌+ℤ◌, quot, signed, magnitude, fits_i64, ℤ, pos, negsuc, eqℤ}
use toydb.Error.{◌>>=◌, ok, err, io}
use toydb.Sql.Types.Value.{null, Value, integer}
use toydb.Sql.Types.Expression.{evaluate, Row, column_value, Expression, column, equal}
use toydb.Sql.Types.Tests.{whole, same_text}
use toydb.Sql.Types.Expression.Lookup.{eqℤ_comm}
use toydb.Sql.Planner.Aggregate.{Aggregate, expr}
use toydb.Sql.Execution.Aggregator
use toydb.Sql.Execution.Aggregator.{Aggregator, add_rows, into_rows, collected}
use toydb.Sql.Execution.Aggregator.Column.{
  overflows, partial_sums_fit, defined, aggregate_of, total, entry,
}
use toydb.Sql.Execution.Aggregator.Ungrouped.{add_rows-aggregate_of}
use toydb.Sql.Execution.HashJoin
use toydb.Sql.Execution.HashJoin.Matches.{IsSame, source}
use toydb.Sql.Execution.HashJoin.Equivalence
use toydb.Sql.Execution.HashJoin.Remaining
use toydb.Sql.Execution.HashJoin.Equivalence.{collect-HashJoiner}
use toydb.Sql.Execution.Join.{Rows, new, collect}
use toydb.Sql.Execution.Join.NestedLoop.{join, calls_after, collect-new}

-- Two rows and an error on the left.
abbrev movies : Rows whole same_text
movies = ok (integer (pos 1) ∷ []) ∷ ok (integer (pos 2) ∷ []) ∷ err io ∷ []

abbrev genres : Rows whole same_text
genres = ok (integer (pos 2) ∷ []) ∷ ok (integer (pos 5) ∷ []) ∷ []

abbrev same_id : Option (Expression whole)
same_id = some (equal (column 0) (column 1))

collect-new_example :
    collect whole same_text 10 (new whole same_text movies genres 1 same_id true)
    ≡ join whole same_text movies genres 1 same_id true
unfolding calls_after
collect-new_example = collect-new whole same_text movies genres 1 same_id true 10 (omega arith)

-- Keys that are the same integer.
abbrev same_integer : Value whole → Value whole → Bool
same_integer (integer a) (integer b) = eqℤ a b
same_integer _ _ = false

eqℤ-trans : (a b c : ℤ) → eqℤ a b ≡ true → eqℤ a c ≡ eqℤ b c
unfolding eqℤ
eqℤ-trans (pos a) (pos b) (pos c) h = ground (arith, h)
eqℤ-trans (negsuc a) (negsuc b) (negsuc c) h = ground (arith, h)
eqℤ-trans (pos a) (pos b) (negsuc c) h = refl
eqℤ-trans (negsuc a) (negsuc b) (pos c) h = refl
eqℤ-trans (pos a) (negsuc b) c h = absurd (cc h)
eqℤ-trans (negsuc a) (pos b) c h = absurd (cc h)

same_integer-IsSame : IsSame whole same_integer
same_integer-IsSame = record { symmetric = symmetric; transitive = transitive }
  where
    symmetric : (a b : Value whole) → same_integer a b ≡ same_integer b a
    symmetric (integer a) (integer b) = eqℤ_comm a b
    symmetric _ (integer b) = refl
    symmetric _ _ = refl

    transitive :
        (a b c : Value whole) → same_integer a b ≡ true → same_integer a c ≡ same_integer b c
    transitive (integer a) (integer b) (integer c) h = eqℤ-trans a b c h
    transitive (integer a) (integer b) _ h = refl
    transitive _ (integer b) c h = absurd (cc h)
    transitive _ _ c h = absurd (cc h)

abbrev keyed_genres : List (Value whole × Row whole)
keyed_genres =
    (integer (pos 2), integer (pos 2) ∷ []) ∷ (integer (pos 5), integer (pos 5) ∷ []) ∷ []

collect-HashJoiner_example :
    (joiner : HashJoin.HashJoiner whole same_integer) × (HashJoin.new whole same_integer movies 0
        (source whole same_integer keyed_genres)
        0
        1
        true
      ≡ ok joiner)
    × (HashJoin.collect whole same_integer 10 joiner
        ≡ Remaining.join whole same_integer 0 1 true keyed_genres movies)
unfolding Equivalence.calls_after column_value
collect-HashJoiner_example =
    collect-HashJoiner whole same_integer same_integer-IsSame movies 0 keyed_genres 0 1 true 10
      (refl, (refl, tt)) (omega arith)

-- Prices, one of which is missing.
abbrev prices : List (Row whole × Option ℤ)
prices =
    (integer (pos 3) ∷ [], some (pos 3))
    ∷ (null ∷ [], none)
    ∷ (integer (pos 6) ∷ [], some (pos 6))
    ∷ []

abbrev average_price : Aggregate whole
average_price = Aggregate.average (column 0)

add_rows-aggregate_of_example :
    (add_rows whole same_text
        (map (λ p. ok p.0) prices)
        (Aggregator.new whole [] (average_price ∷ []))
      >>= λ g. collected (into_rows whole g))
    ≡ ok ((integer (pos 4) ∷ []) ∷ [])
unfolding expr evaluate column_value entry overflows partial_sums_fit defined aggregate_of total
    ◌+ℤ◌ quot signed magnitude fits_i64
add_rows-aggregate_of_example =
    add_rows-aggregate_of whole same_text average_price prices (refl, (refl, (refl, tt)))
      (omega arith)
