-- ===== src/Sql/Execution/HashJoin/Equivalence.antt =====
-- src/sql/execution/join.rs: the hash join against the join of lists.
use toydb.Prelude.{
  ℕ, zero, suc, ◌+◌, ◌<◌, ◌≤◌, ◌≡◌, refl, sym, ◌∙◌, subst, Bool, true, false, none, some, List, [],
  ◌∷◌, ◌++◌, map, length, arith,
}
use toydb.Error.{Result, ok, err, panic, >>=-ok}
use toydb.Sql.Types.Value.{Floats, Value}
use toydb.Sql.Types.Expression.{Row, column_value}
use toydb.Sql.Execution.Join.{row_and}
use toydb.Sql.Execution.HashJoin.{
  HashJoiner, Rows, Next, get, new, pop_pending, found_or, keyed_or, next_from, next_or, try_next,
  collect,
}
use toydb.Sql.Execution.HashJoin.Matches.{IsSame, rows_for, extend, HaveKeys, source, build-Holds}
use toydb.Sql.Execution.HashJoin.Remaining.{join, Built, remaining, try_next-Splits}

module _ (floats : Floats) (same_key : Value floats → Value floats → Bool) where
  abbrev V : Type 0
  V = Value floats

  abbrev R : Type 0
  R = Row floats

  abbrev Joined : Type 0
  Joined = Result (List R)

  abbrev Joiner : Type 0
  Joiner = HashJoiner floats same_key

  abbrev Stepped : Type 0
  Stepped = Next floats same_key × Joiner

  -- A bound on the calls that return a row, one more for each left row to come.
  unfoldable pub calls_after : Rows floats same_key → ℕ → ℕ
  calls_after [] per_row = 1
  calls_after (row ∷ rest) per_row = suc per_row + calls_after rest per_row

  abbrev calls : List (V × R) → Joiner → ℕ
  calls rows self = length self.pending + calls_after self.left (length rows)

  length-rows_for :
      (key : V) (rows : List (V × R)) → length (rows_for floats same_key key rows) ≤ length rows
  unfolding rows_for
  length-rows_for key [] = omega arith
  length-rows_for key ((own, row) ∷ rows) = ground (arith, length-rows_for key rows)

  length-map : (left : R) (rows : List R) → length (map (λ right. left ++ right) rows) ≡ length rows
  length-map left [] = refl
  length-map left (row ∷ rows) = omega (arith, length-map left rows)

  abbrev Shortens : List (V × R) → ℕ → Stepped → Type 0
  Shortens rows n (found, self) = (row : R) → found ≡ ok (some row) → calls rows self < n

  found_or-Shortens :
      (rows : List (V × R)) (self : Joiner) (left : R) (matches : List R) (outer : Bool)
      (later : Stepped)
      → self.pending ≡ []
      → length matches ≤ length rows
      → Shortens rows (calls_after self.left (length rows)) later
      → Shortens rows
          (suc (length rows) + calls_after self.left (length rows))
          (found_or floats same_key left self (extend floats same_key none matches) outer later)
  unfolding found_or pop_pending
  found_or-Shortens rows self left (right ∷ matches) outer later p m l row e =
      omega (arith, m, length-map left matches)
  found_or-Shortens rows self left [] true later p m l row e = rw p (omega arith)
  found_or-Shortens rows self left [] false later p m l row e = omega (arith, l row e)

  keyed_or-Shortens :
      (rows : List (V × R)) (self : Joiner) (left : R) (key : Result V) (later : Stepped)
      → self.pending ≡ []
      → Built floats same_key rows self
      → Shortens rows (calls_after self.left (length rows)) later
      → Shortens rows
          (suc (length rows) + calls_after self.left (length rows))
          (keyed_or floats same_key left self key later)
  unfolding keyed_or
  keyed_or-Shortens rows self left panic later p h l row e = absurd (cc e)
  keyed_or-Shortens rows self left (err _) later p h l row e = absurd (cc e)
  keyed_or-Shortens rows self left (ok key) later p h l row e =
      subst
        (λ found.
          Shortens rows (suc (length rows) + calls_after self.left (length rows))
            (found_or floats same_key left self found self.outer later))
        (sym (h key))
        (found_or-Shortens rows self left (rows_for floats same_key key rows) self.outer later p
          (length-rows_for key rows) l)
        row e

  next_from-Shortens :
      (rows : List (V × R)) (left : Rows floats same_key) (self : Joiner)
      → self.pending ≡ []
      → Built floats same_key rows self
      → Shortens rows (calls_after left (length rows)) (next_from floats same_key left self)
  unfolding next_from calls_after
  next_from-Shortens rows [] self p h row e = absurd (cc e)
  next_from-Shortens rows (panic ∷ rest) self p h row e = absurd (cc e)
  next_from-Shortens rows (err _ ∷ rest) self p h row e = absurd (cc e)
  next_from-Shortens rows (ok left ∷ rest) self p h row e =
      let next : Joiner = record self { left = rest } in
      keyed_or-Shortens rows next left (column_value floats (some left) self.left_column)
        (next_from floats same_key rest next) p h (next_from-Shortens rows rest next p h) row e

  next_or-Shortens :
      (rows : List (V × R)) (self : Joiner) (pending : List R)
      → self.pending ≡ pending
      → Built floats same_key rows self
      → Shortens rows
          (length pending + calls_after self.left (length rows))
          (next_or floats same_key pending self)
  unfolding next_or pop_pending
  next_or-Shortens rows self [] p h row e =
      omega (arith, next_from-Shortens rows self.left self p h row e)
  next_or-Shortens rows self (first ∷ more) p h row e = omega arith

  row_and-cong :
      (found : Next floats same_key) (a b : Joined)
      → ((row : R) → found ≡ ok (some row) → a ≡ b)
      → row_and floats found a ≡ row_and floats found b
  unfolding row_and
  row_and-cong panic a b h = refl
  row_and-cong (err e) a b h = refl
  row_and-cong (ok none) a b h = refl
  row_and-cong (ok (some row)) a b h = rw (h row refl) refl

  calls_after-pos : (rest : Rows floats same_key) (n : ℕ) → 1 ≤ calls_after rest n
  unfolding calls_after
  calls_after-pos [] n = omega arith
  calls_after-pos (row ∷ rest) n = omega (arith, calls_after-pos rest n)

  collect-remaining :
      (rows : List (V × R)) (n : ℕ) (self : Joiner)
      → Built floats same_key rows self
      → calls rows self ≤ n
      → collect floats same_key n self ≡ remaining floats same_key rows self
  unfolding collect try_next
  collect-remaining rows zero self h c =
      absurd (omega (arith, c, calls_after-pos self.left (length rows)))
  collect-remaining rows (suc n) self h c =
      let step : Stepped = next_or floats same_key self.pending self in
      let (all, built) = try_next-Splits floats same_key rows self h in
      row_and-cong step.0 (collect floats same_key n step.1) (remaining floats same_key rows step.1)
        (λ row e.
          collect-remaining rows n step.1 built
            (omega (arith, c, next_or-Shortens rows self self.pending refl h row e)))
      ∙ sym all

  -- With right rows that have the join column, and keys whose sameness is symmetric and
  -- transitive, a hash join can be made; if it is called often enough, for each left row once for
  -- each right row and once more, and once at the end, it returns the rows of the join of the two
  -- sources, up to the first error of the left one.
  pub collect-HashJoiner :
      IsSame floats same_key
      → (left : Rows floats same_key) (left_column : ℕ) (rows : List (Value floats × Row floats))
        (right_column right_columns : ℕ) (outer : Bool) (calls : ℕ)
      → HaveKeys floats same_key right_column rows
      → calls_after left (length rows) ≤ calls
      → (joiner : HashJoiner floats same_key) × (new floats same_key left left_column
            (source floats same_key rows)
            right_column
            right_columns
            outer
          ≡ ok joiner)
        × (collect floats same_key calls joiner
            ≡ join floats same_key left_column right_columns outer rows left)
  unfolding new remaining get
  collect-HashJoiner same left left_column rows right_column right_columns outer n keys enough =
      let (built, e, holds) = build-Holds floats same_key same right_column rows [] keys in
      let joiner : Joiner = record {
        left = left;
        left_column = left_column;
        right = built;
        right_columns = right_columns;
        outer = outer;
        pending = [];
      } in
      (
        joiner,
        rw e refl,
        collect-remaining rows n joiner holds (omega (arith, enough))
            ∙ >>=-ok (join floats same_key left_column right_columns outer rows left),
      )
