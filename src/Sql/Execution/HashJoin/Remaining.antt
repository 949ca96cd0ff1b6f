-- ===== src/Sql/Execution/HashJoin/Remaining.antt =====
-- src/sql/execution/join.rs: what a hash join has still to return, against a join of lists.
use toydb.Prelude.{ℕ, ◌≡◌, refl, ◌∙◌, Bool, true, false, none, some, List, [], ◌∷◌, ◌++◌, map}
use toydb.Error.{Result, ok, err, panic, ◌>>=◌, >>=-ok}
use toydb.Sql.Types.Value.{Floats, Value}
use toydb.Sql.Types.Expression.{Row, column_value}
use toydb.Sql.Execution.Join.{nulls, row_and}
use toydb.Sql.Execution.HashJoin.{
  HashJoiner, Rows, Next, get, pop_pending, found_or, keyed_or, next_from, next_or, try_next,
}
use toydb.Sql.Execution.HashJoin.Matches.{rows_for, extend}

module _ (floats : Floats) (same_key : Value floats → Value floats → Bool) where
  abbrev V : Type 0
  V = Value floats

  abbrev R : Type 0
  R = Row floats

  abbrev Joined : Type 0
  Joined = Result (List R)

  abbrev Joiner : Type 0
  Joiner = HashJoiner floats same_key

  -- The rows of a left row and its matches; in an outer join one with NULLs if it has none.
  unfoldable pub join_row : Bool → ℕ → R → List R → List R
  join_row outer columns left (right ∷ rows) = map (λ right. left ++ right) (right ∷ rows)
  join_row true columns left [] = (left ++ nulls floats columns) ∷ []
  join_row false columns left [] = []

  -- The join of a left source with right rows, each given with its key.
  unfoldable pub join :
      ℕ → ℕ → Bool → List (V × R) → Rows floats same_key → Result (List (Row floats))
  join left_column right_columns outer rows [] = ok []
  join left_column right_columns outer rows (next ∷ rest) = next >>= λ left.
      column_value floats (some left) left_column >>= λ key.
      join left_column right_columns outer rows rest >>= λ more.
      ok (join_row outer right_columns left (rows_for floats same_key key rows) ++ more)

  -- The map of the joiner has the rows.
  abbrev pub Built : List (V × R) → Joiner → Type 0
  Built rows self =
      (key : V)
      → get floats same_key key self.right
        ≡ extend floats same_key none (rows_for floats same_key key rows)

  abbrev rest_of : List (V × R) → Joiner → Joined
  rest_of rows self = join self.left_column self.right_columns self.outer rows self.left

  unfoldable pub remaining : List (V × R) → Joiner → Joined
  remaining rows self = rest_of rows self >>= λ more. ok (self.pending ++ more)

  abbrev Stepped : Type 0
  Stepped = Next floats same_key × Joiner

  abbrev Splits : List (V × R) → Joined → Stepped → Type 0
  Splits rows all (found, self) =
      (all ≡ row_and floats found (remaining rows self)) × Built rows self

  first_of :
      (r : Joined) (row : R) (more : List R)
      → (r >>= λ rest. ok ((row ∷ more) ++ rest))
        ≡ ((r >>= λ rest. ok (more ++ rest)) >>= λ rows. ok (row ∷ rows))
  first_of panic row more = refl
  first_of (err e) row more = refl
  first_of (ok rest) row more = refl

  pop_pending-Splits :
      (rows : List (V × R)) (self : Joiner) (row : R) (more : List R)
      → Built rows self
      → Splits rows
          (rest_of rows self >>= λ rest. ok ((row ∷ more) ++ rest))
          (pop_pending floats same_key (row ∷ more) self)
  unfolding pop_pending row_and remaining
  pop_pending-Splits rows self row more h = (first_of (rest_of rows self) row more, h)

  found_or-Splits :
      (rows : List (V × R)) (self : Joiner) (left : R) (matches : List R) (outer : Bool)
      (later : Stepped)
      → self.pending ≡ []
      → Built rows self
      → Splits rows (rest_of rows self) later
      → Splits rows
          (rest_of rows self >>= λ more.
            ok (join_row outer self.right_columns left matches ++ more))
          (found_or floats same_key left self (extend floats same_key none matches) outer later)
  unfolding found_or join_row remaining row_and
  found_or-Splits rows self left (right ∷ matches) outer later p h l =
      pop_pending-Splits rows self (left ++ right) (map (λ right. left ++ right) matches) h
  found_or-Splits rows self left [] true later p h l =
      (rw p (first_of (rest_of rows self) (left ++ nulls floats self.right_columns) []), h)
  found_or-Splits rows self left [] false later p h l = (>>=-ok (rest_of rows self) ∙ l.0, l.1)

  keyed_or-Splits :
      (rows : List (V × R)) (self : Joiner) (left : R) (key : Result V) (later : Stepped)
      → self.pending ≡ []
      → Built rows self
      → Splits rows (rest_of rows self) later
      → Splits rows
          (key >>= λ key. rest_of rows self >>= λ more. ok (
            join_row self.outer self.right_columns left (rows_for floats same_key key rows)
            ++ more))
          (keyed_or floats same_key left self key later)
  unfolding keyed_or row_and
  keyed_or-Splits rows self left panic later p h l = (refl, h)
  keyed_or-Splits rows self left (err e) later p h l = (refl, h)
  keyed_or-Splits rows self left (ok key) later p h l =
      rw (h key)
        (found_or-Splits rows self left (rows_for floats same_key key rows) self.outer later p h l)

  next_from-Splits :
      (rows : List (V × R)) (left : Rows floats same_key) (self : Joiner)
      → self.pending ≡ []
      → Built rows self
      → Splits rows
          (join self.left_column self.right_columns self.outer rows left)
          (next_from floats same_key left self)
  unfolding next_from join row_and
  next_from-Splits rows [] self p h = (refl, h)
  next_from-Splits rows (panic ∷ rest) self p h = (refl, h)
  next_from-Splits rows (err e ∷ rest) self p h = (refl, h)
  next_from-Splits rows (ok left ∷ rest) self p h =
      let next : Joiner = record self { left = rest } in
      keyed_or-Splits rows next left (column_value floats (some left) self.left_column)
        (next_from floats same_key rest next) p h (next_from-Splits rows rest next p h)

  next_or-Splits :
      (rows : List (V × R)) (self : Joiner) (pending : List R)
      → self.pending ≡ pending
      → Built rows self
      → Splits rows
          (rest_of rows self >>= λ more. ok (pending ++ more))
          (next_or floats same_key pending self)
  unfolding next_or
  next_or-Splits rows self [] p h =
      let (all, built) = next_from-Splits rows self.left self p h in
      (>>=-ok (rest_of rows self) ∙ all, built)
  next_or-Splits rows self (row ∷ more) p h = pop_pending-Splits rows self row more h

  pub try_next-Splits :
      (rows : List (V × R)) (self : Joiner)
      → Built rows self
      → Splits rows (remaining rows self) (try_next floats same_key self)
  unfolding try_next remaining
  try_next-Splits rows self h = next_or-Splits rows self self.pending refl h
