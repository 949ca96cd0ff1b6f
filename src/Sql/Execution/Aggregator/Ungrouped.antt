-- ===== src/Sql/Execution/Aggregator/Ungrouped.antt =====
-- src/sql/execution/aggregator.rs: aggregation without GROUP BY, of which the rows are one bucket.
use toydb.Prelude.{
  ◌<◌, ◌≡◌, refl, ap, sym, ◌∙◌, Option, some, List, [], ◌∷◌, All, map, length, if◌then◌else◌, Bool,
  true, false,
}
use toydb.Prelude.Int.{ℤ, i64_bound}
use toydb.Error.{Result, ok, err, panic, invalid_input, ◌>>=◌}
use toydb.Encoding.Bytes.{Bytes}
use toydb.Sql.Types.Value.{Floats, Value}
use toydb.Sql.Types.Order.{cmp_all}
use toydb.Sql.Types.Expression.{Row, evaluate}
use toydb.Sql.Planner.Aggregate.{Aggregate, expr}
use toydb.Sql.Execution.Aggregator.{
  Accumulator, accumulator, add, value, collected, Aggregator, new, at_bucket, update_bucket,
  add_each, add_row, add_rows, bucket_row, rows_of, into_rows,
}
use toydb.Sql.Execution.Aggregator.Column.{
  defined, overflows, entry, aggregate_of, after, aggregated,
}
use toydb.Sql.Execution.Aggregator.Results.{after-aggregated}

module _ (floats : Floats) (is_match : Bytes → Bytes → Result Bool) (a : Aggregate floats) where
  abbrev A : Type 0
  A = Accumulator floats

  abbrev S : Type 0
  S = Aggregator floats

  -- A row, and what it has in the column.
  abbrev Item : Type 0
  Item = Row floats × Option ℤ

  abbrev HasEntry : Item → Type 0
  HasEntry (row, o) = evaluate floats is_match (some row) (expr floats a) ≡ ok (entry floats o)

  abbrev rows : List Item → List (Result (Row floats))
  rows = map (λ p. ok p.0)

  abbrev column : List Item → List (Option ℤ)
  column = map (λ p. p.1)

  abbrev one : A → S
  one acc = record { group_by = []; aggregates = a ∷ []; buckets = ([], acc ∷ []) ∷ [] }

  stored_one :
      (r : Result A)
      → (((r >>= λ added. ok (added ∷ [])) >>= λ accs. ok (([], accs) ∷ [])) >>= λ buckets.
          ok (record (one (accumulator floats a)) { buckets = buckets }))
        ≡ (r >>= λ next. ok (one next))
  stored_one panic = refl
  stored_one (err e) = refl
  stored_one (ok next) = refl

  add_row-one :
      (acc : A) (row : Row floats) (o : Option ℤ)
      → HasEntry (row, o)
      → add_row floats is_match (one acc) row
        ≡ (add floats (entry floats o) acc >>= λ next. ok (one next))
  unfolding add_row collected update_bucket at_bucket add_each cmp_all
  add_row-one acc row o h = rw h (stored_one (add floats (entry floats o) acc))

  add_row-new :
      (row : Row floats) (o : Option ℤ)
      → HasEntry (row, o)
      → add_row floats is_match (new floats [] (a ∷ [])) row
        ≡ (add floats (entry floats o) (accumulator floats a) >>= λ next. ok (one next))
  unfolding add_row collected update_bucket add_each new
  add_row-new row o h = rw h (stored_one (add floats (entry floats o) (accumulator floats a)))

  abbrev Rows : Type 0
  Rows = Result (List (Row floats))

  abbrev finish : S → Rows
  finish g = collected (into_rows floats g)

  abbrev single : Value floats → Rows
  single v = ok ((v ∷ []) ∷ [])

  single_row :
      (r : Result (Value floats))
      → collected (((r >>= λ v. ok (v ∷ [])) >>= λ vs. ok vs) ∷ []) ≡ (r >>= single)
  unfolding collected
  single_row panic = refl
  single_row (err e) = refl
  single_row (ok v) = refl

  finish-one : (acc : A) → finish (one acc) ≡ (value floats acc >>= single)
  unfolding into_rows rows_of bucket_row collected
  finish-one acc = single_row (value floats acc)

  no_rows : (r : Result (Value floats)) → collected ((r >>= λ v. ok (v ∷ [])) ∷ []) ≡ (r >>= single)
  unfolding collected
  no_rows panic = refl
  no_rows (err e) = refl
  no_rows (ok v) = refl

  finish-new : finish (new floats [] (a ∷ [])) ≡ (value floats (accumulator floats a) >>= single)
  unfolding into_rows rows_of new collected
  finish-new = no_rows (value floats (accumulator floats a))

  -- The rest of the rows, once the first row is added.
  add_rows-after :
      (items : List Item) (r : Result A) (os : List (Option ℤ))
      → ((acc : A)
          → (add_rows floats is_match (rows items) (one acc) >>= finish)
            ≡ (after floats acc os >>= λ next. finish (one next)))
      → (((r >>= λ next. ok (one next)) >>= add_rows floats is_match (rows items)) >>= finish)
        ≡ ((r >>= λ next. after floats next os) >>= λ next. finish (one next))
  add_rows-after items panic os h = refl
  add_rows-after items (err e) os h = refl
  add_rows-after items (ok acc) os h = h acc

  add_rows-one :
      (items : List Item) (acc : A)
      → All HasEntry items
      → (add_rows floats is_match (rows items) (one acc) >>= finish)
        ≡ (after floats acc (column items) >>= λ next. finish (one next))
  unfolding add_rows after
  add_rows-one [] acc h = refl
  add_rows-one ((row, o) ∷ items) acc (h, hs) = rw (add_row-one acc row o h) (
      add_rows-after items (add floats (entry floats o) acc) (column items)
        (λ acc. add_rows-one items acc hs))

  add_rows-new :
      (items : List Item)
      → All HasEntry items
      → (add_rows floats is_match (rows items) (new floats [] (a ∷ [])) >>= finish)
        ≡ (after floats (accumulator floats a) (column items) >>= λ next. finish (one next))
  unfolding add_rows after
  add_rows-new [] h = finish-new ∙ sym (finish-one (accumulator floats a))
  add_rows-new ((row, o) ∷ items) (h, hs) = rw (add_row-new row o h) (
      add_rows-after items (add floats (entry floats o) (accumulator floats a)) (column items)
        (λ acc. add_rows-one items acc hs))

  finished : (r : Result A) → (r >>= λ next. finish (one next)) ≡ ((r >>= value floats) >>= single)
  finished panic = refl
  finished (err e) = refl
  finished (ok acc) = finish-one acc

  single-if :
      (b : Bool) (v : Value floats)
      → ((if b then err invalid_input else ok v) >>= single)
        ≡ (if b then err invalid_input else single v)
  single-if true v = refl
  single-if false v = refl

  -- Without GROUP BY, one aggregate function of an expression that is an integer or NULL in each
  -- of fewer than 2 ^ 63 rows fails if it is a sum or an average and a partial sum of the
  -- integers does not fit in 64 bits; otherwise it gives one row, with the number, the sum, the
  -- rounded average, the greatest or the least of the integers, or NULL if there are none and
  -- they are not counted.
  pub add_rows-aggregate_of :
      (items : List (Row floats × Option ℤ))
      → All (λ p. evaluate floats is_match (some p.0) (expr floats a) ≡ ok (entry floats p.1)) items
      → length (map (λ p. p.1) items) < i64_bound
      → (add_rows floats is_match (map (λ p. ok p.0) items) (new floats [] (a ∷ [])) >>= λ g.
          collected (into_rows floats g))
        ≡ (if overflows a (defined (map (λ p. p.1) items))
            then err invalid_input
            else ok ((aggregate_of floats a (defined (map (λ p. p.1) items)) ∷ []) ∷ []))
  unfolding aggregated
  add_rows-aggregate_of items h k =
      add_rows-new items h
      ∙ finished (after floats (accumulator floats a) (column items))
      ∙ ap (λ r. r >>= single) (after-aggregated floats a (column items) k)
      ∙ single-if (overflows a (defined (column items)))
          (aggregate_of floats a (defined (column items)))
