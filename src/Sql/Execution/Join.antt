-- ===== src/Sql/Execution/Join.antt =====
-- src/sql/execution/join.rs: the nested loop join. A source of rows is the list of what its
-- iterator returns, errors included.
mod Matches
pub mod NestedLoop
use toydb.Prelude.{
  ℕ, zero, suc, Bool, true, false, not, ◌&&◌, Option, none, some, List, [], ◌∷◌, ◌++◌,
  if◌then◌else◌,
}
use toydb.Error.{Result, ok, err, panic, ◌>>=◌, invalid_input}
use toydb.Encoding.Bytes.{Bytes}
use toydb.Sql.Types.Value.{Floats, Value, null, boolean, integer, float, string}
use toydb.Sql.Types.Expression.{Row, Expression, evaluate}

module _ (floats : Floats) where
  -- `repeat_n(Value::Null, n)`
  unfoldable pub nulls : ℕ → Row floats
  nulls zero = []
  nulls (suc n) = null ∷ nulls n

  -- The row of a call, before those of the later calls.
  unfoldable pub row_and :
      Result (Option (Row floats)) → Result (List (Row floats)) → Result (List (Row floats))
  row_and panic later = panic
  row_and (err e) later = err e
  row_and (ok none) later = ok []
  row_and (ok (some row)) later = later >>= λ rows. ok (row ∷ rows)

module _ (floats : Floats) (is_match : Bytes → Bytes → Result Bool) where
  abbrev pub Rows : Type 0
  Rows = List (Result (Row floats))

  pub record NestedLoopJoiner : Type 0 where
    pub left : Rows
    pub right : Rows
    pub right_original : Rows
    pub right_columns : ℕ
    pub right_matched : Bool
    pub predicate : Option (Expression floats)
    pub outer : Bool

  unfoldable pub new : Rows → Rows → ℕ → Option (Expression floats) → Bool → NestedLoopJoiner
  new left right right_columns predicate outer = record {
    left = left;
    right = right;
    right_original = right;
    right_columns = right_columns;
    right_matched = false;
    predicate = predicate;
    outer = outer;
  }

  unfoldable pub to_condition : Value floats → Result Bool
  to_condition (boolean b) = ok b
  to_condition null = ok false
  to_condition _ = err invalid_input

  -- Whether the join predicate, if there is one, accepts a joined row.
  unfoldable pub accepts : Option (Expression floats) → Row floats → Result Bool
  accepts none row = ok true
  accepts (some predicate) row = evaluate floats is_match (some row) predicate >>= to_condition

  abbrev Next : Type 0
  Next = Result (Option (Row floats))

  -- A right row that is accepted is the next match; after another the loop goes on.
  unfoldable pub match_or : Result Bool → Row floats → Rows → Next × Rows → Next × Rows
  match_or panic row rest later = (panic, rest)
  match_or (err e) row rest later = (err e, rest)
  match_or (ok true) row rest later = (ok (some row), rest)
  match_or (ok false) row rest later = later

  -- The inner loop: the next match in the right source, and what is left of that.
  unfoldable pub next_match : Option (Expression floats) → Row floats → Rows → Next × Rows
  next_match predicate left [] = (ok none, [])
  next_match predicate left (panic ∷ rest) = (panic, rest)
  next_match predicate left (err e ∷ rest) = (err e, rest)
  next_match predicate left (ok right ∷ rest) =
      match_or (accepts predicate (left ++ right)) (left ++ right) rest
        (next_match predicate left rest)

  -- What follows the inner loop: the match, the row with NULLs, or the next left row.
  unfoldable pub found_or :
      Row floats
      → NestedLoopJoiner
      → Next
      → Bool
      → Next × NestedLoopJoiner
      → Next × NestedLoopJoiner
  found_or left self panic padded later = (panic, self)
  found_or left self (err e) padded later = (err e, self)
  found_or left self (ok (some row)) padded later =
      (ok (some row), record self { right_matched = true })
  found_or left self (ok none) true later =
      (ok (some (left ++ nulls floats self.right_columns)), record self { right_matched = true })
  found_or left self (ok none) false later = later

  -- The outer loop, over the rows that are left in the left source.
  unfoldable pub next_from : Rows → NestedLoopJoiner → Next × NestedLoopJoiner
  next_from [] self = (ok none, record self { left = [] })
  next_from (panic ∷ rest) self = (panic, record self { left = rest })
  next_from (err e ∷ rest) self = (err e, record self { left = rest })
  next_from (ok left ∷ rest) self =
      let (found, right) = next_match self.predicate left self.right in
      found_or left (record self { left = ok left ∷ rest; right = right }) found
        (not self.right_matched && self.outer)
        (next_from rest
          (record self { left = rest; right = self.right_original; right_matched = false }))

  unfoldable pub try_next : NestedLoopJoiner → Result (Option (Row floats)) × NestedLoopJoiner
  try_next self = next_from self.left self

  -- All rows of the iterator, up to the first error, in at most so many calls.
  unfoldable pub collect : ℕ → NestedLoopJoiner → Result (List (Row floats))
  collect zero self = panic
  collect (suc calls) self =
      let (found, rest) = try_next self in row_and floats found (collect calls rest)
