-- ===== src/Sql/Execution/HashJoin.antt =====
-- src/sql/execution/join.rs: the hash join. `HashMap` belongs to the standard library: the keys
-- that it takes for the same (equal, with equal hashes) are those of the parameter `same_key`,
-- and a map is the list of its keys and values.
pub mod Equivalence
pub mod Matches
pub mod Remaining
use toydb.Prelude.{
  ℕ, zero, suc, Bool, true, false, Option, none, some, List, [], ◌∷◌, ◌++◌, map, if◌then◌else◌,
}
use toydb.Error.{Result, ok, err, panic, ◌>>=◌}
use toydb.Sql.Types.Value.{Floats, Value, is_undefined}
use toydb.Sql.Types.Expression.{Row, column_value}
use toydb.Sql.Execution.Join.{nulls, row_and}

module _ (floats : Floats) (same_key : Value floats → Value floats → Bool) where
  abbrev V : Type 0
  V = Value floats

  abbrev R : Type 0
  R = Row floats

  abbrev pub HashMap : Type 0
  HashMap = List (V × List R)

  unfoldable pub get : V → HashMap → Option (List R)
  get key [] = none
  get key ((k, rows) ∷ entries) =
      let rest = get key entries in if same_key k key then some rows else rest

  -- `entry(key).or_default().push(row)`
  unfoldable pub push : V → R → HashMap → HashMap
  push key row [] = (key, row ∷ []) ∷ []
  push key row ((k, rows) ∷ entries) =
      let rest = push key row entries in
      if same_key k key then (k, rows ++ (row ∷ [])) ∷ entries else (k, rows) ∷ rest

  abbrev pub Rows : Type 0
  Rows = List (Result R)

  -- The loop of `new` over the right source. A NULL or a NaN never matches.
  unfoldable pub build : ℕ → Rows → HashMap → Result HashMap
  build right_column [] entries = ok entries
  build right_column (next ∷ rest) entries = next >>= λ row.
      column_value floats (some row) right_column >>= λ key.
      build right_column rest (if is_undefined floats key then entries else push key row entries)

  pub record HashJoiner : Type 0 where
    pub left : Rows
    pub left_column : ℕ
    pub right : HashMap
    pub right_columns : ℕ
    pub outer : Bool
    pub pending : List R

  unfoldable pub new : Rows → ℕ → Rows → ℕ → ℕ → Bool → Result HashJoiner
  new left left_column right right_column right_columns outer =
      build right_column right [] >>= λ entries. ok (record {
        left = left;
        left_column = left_column;
        right = entries;
        right_columns = right_columns;
        outer = outer;
        pending = [];
      })

  abbrev pub Next : Type 0
  Next = Result (Option R)

  abbrev joined : R → List R → List R
  joined left rows = map (λ right. left ++ right) rows

  -- The first pending row.
  unfoldable pub pop_pending : List R → HashJoiner → Next × HashJoiner
  pop_pending [] self = (ok none, record self { pending = [] })
  pop_pending (row ∷ rows) self = (ok (some row), record self { pending = rows })

  -- What the lookup of a left row leads to: its matches, the row with NULLs, or the next left row.
  unfoldable pub found_or :
      R → HashJoiner → Option (List R) → Bool → Next × HashJoiner → Next × HashJoiner
  found_or left self (some rows) outer later = pop_pending (joined left rows) self
  found_or left self none true later = (ok (some (left ++ nulls floats self.right_columns)), self)
  found_or left self none false later = later

  unfoldable pub keyed_or : R → HashJoiner → Result V → Next × HashJoiner → Next × HashJoiner
  keyed_or left self panic later = (panic, self)
  keyed_or left self (err e) later = (err e, self)
  keyed_or left self (ok key) later = found_or left self (get key self.right) self.outer later

  -- The loop over the left source.
  unfoldable pub next_from : Rows → HashJoiner → Next × HashJoiner
  next_from [] self = (ok none, record self { left = [] })
  next_from (panic ∷ rest) self = (panic, record self { left = rest })
  next_from (err e ∷ rest) self = (err e, record self { left = rest })
  next_from (ok left ∷ rest) self =
      let self : HashJoiner = record self { left = rest } in
      keyed_or left self (column_value floats (some left) self.left_column) (next_from rest self)

  unfoldable pub next_or : List R → HashJoiner → Next × HashJoiner
  next_or [] self = next_from self.left self
  next_or (row ∷ rows) self = pop_pending (row ∷ rows) self

  unfoldable pub try_next : HashJoiner → Next × HashJoiner
  try_next self = next_or self.pending self

  -- All rows of the iterator, up to the first error, in at most so many calls.
  unfoldable pub collect : ℕ → HashJoiner → Result (List R)
  collect zero self = panic
  collect (suc calls) self =
      let (found, rest) = try_next self in row_and floats found (collect calls rest)
