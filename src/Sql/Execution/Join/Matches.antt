-- ===== src/Sql/Execution/Join/Matches.antt =====
-- src/sql/execution/join.rs: the matches of a left row, and the search for the next one.
use toydb.Prelude.{
  ℕ, suc, ◌<◌, ◌≡◌, refl, ◌∙◌, Bool, true, false, Option, none, some, List, [], ◌∷◌, ◌++◌,
  if◌then◌else◌, length, arith,
}
use toydb.Error.{Result, ok, err, panic, ◌>>=◌, >>=-ok}
use toydb.Encoding.Bytes.{Bytes}
use toydb.Sql.Types.Value.{Floats}
use toydb.Sql.Types.Expression.{Row, Expression}
use toydb.Sql.Execution.Join.{Rows, accepts, next_match, match_or, row_and}

module _ (floats : Floats) (is_match : Bytes → Bytes → Result Bool) where
  abbrev Joined : Type 0
  Joined = Result (List (Row floats))

  -- The rows that a left row makes with the right rows that the predicate accepts.
  unfoldable pub matches :
      Option (Expression floats) → Row floats → Rows floats is_match → Result (List (Row floats))
  matches predicate left [] = ok []
  matches predicate left (row ∷ rest) = row >>= λ right.
      accepts floats is_match predicate (left ++ right) >>= λ accepted.
      matches predicate left rest >>= λ rows. ok (if accepted then (left ++ right) ∷ rows else rows)

  -- The matches, given the next one and the right rows behind it.
  abbrev after_match :
      Option (Expression floats)
      → Row floats
      → Result (Option (Row floats)) × Rows floats is_match
      → Joined
  after_match predicate left (found, rest) = row_and floats found (matches predicate left rest)

  matches-match_or :
      (predicate : Option (Expression floats)) (left : Row floats) (accepted : Result Bool)
      (row : Row floats) (rest : Rows floats is_match)
      (later : Result (Option (Row floats)) × Rows floats is_match)
      → matches predicate left rest ≡ after_match predicate left later
      → (accepted >>= λ yes.
          matches predicate left rest >>= λ rows. ok (if yes then row ∷ rows else rows))
        ≡ after_match predicate left (match_or floats is_match accepted row rest later)
  unfolding match_or row_and
  matches-match_or predicate left panic row rest later h = refl
  matches-match_or predicate left (err e) row rest later h = refl
  matches-match_or predicate left (ok true) row rest later h = refl
  matches-match_or predicate left (ok false) row rest later h =
      >>=-ok (matches predicate left rest) ∙ h

  pub matches-next_match :
      (predicate : Option (Expression floats)) (left : Row floats) (right : Rows floats is_match)
      → matches predicate left right
        ≡ after_match predicate left (next_match floats is_match predicate left right)
  unfolding matches next_match row_and
  matches-next_match predicate left [] = refl
  matches-next_match predicate left (panic ∷ rest) = refl
  matches-next_match predicate left (err e ∷ rest) = refl
  matches-next_match predicate left (ok right ∷ rest) =
      matches-match_or predicate left (accepts floats is_match predicate (left ++ right))
        (left ++ right) rest (next_match floats is_match predicate left rest)
        (matches-next_match predicate left rest)

  -- A match takes a row from the right source.
  abbrev Took : ℕ → Result (Option (Row floats)) × Rows floats is_match → Type 0
  Took n (found, rest) = (row : Row floats) → found ≡ ok (some row) → length rest < n

  match_or-Took :
      (accepted : Result Bool) (row : Row floats) (rest : Rows floats is_match)
      (later : Result (Option (Row floats)) × Rows floats is_match)
      → Took (length rest) later
      → Took (suc (length rest)) (match_or floats is_match accepted row rest later)
  unfolding match_or
  match_or-Took panic row rest later h r e = absurd (cc e)
  match_or-Took (err _) row rest later h r e = absurd (cc e)
  match_or-Took (ok true) row rest later h r e = omega arith
  match_or-Took (ok false) row rest later h r e = omega (arith, h r e)

  pub next_match-Took :
      (predicate : Option (Expression floats)) (left : Row floats) (right : Rows floats is_match)
      → Took (length right) (next_match floats is_match predicate left right)
  unfolding next_match
  next_match-Took predicate left [] row h = absurd (cc h)
  next_match-Took predicate left (panic ∷ rest) row h = absurd (cc h)
  next_match-Took predicate left (err e ∷ rest) row h = absurd (cc h)
  next_match-Took predicate left (ok right ∷ rest) row h =
      match_or-Took (accepts floats is_match predicate (left ++ right)) (left ++ right) rest
        (next_match floats is_match predicate left rest) (next_match-Took predicate left rest) row h

  -- Without a match the right source is at its end.
  abbrev Ended : Result (Option (Row floats)) × Rows floats is_match → Type 0
  Ended (found, rest) = found ≡ ok none → rest ≡ []

  match_or-Ended :
      (accepted : Result Bool) (row : Row floats) (rest : Rows floats is_match)
      (later : Result (Option (Row floats)) × Rows floats is_match)
      → Ended later
      → Ended (match_or floats is_match accepted row rest later)
  unfolding match_or
  match_or-Ended panic row rest later h e = absurd (cc e)
  match_or-Ended (err _) row rest later h e = absurd (cc e)
  match_or-Ended (ok true) row rest later h e = absurd (cc e)
  match_or-Ended (ok false) row rest later h e = h e

  pub next_match-Ended :
      (predicate : Option (Expression floats)) (left : Row floats) (right : Rows floats is_match)
      → Ended (next_match floats is_match predicate left right)
  unfolding next_match
  next_match-Ended predicate left [] h = refl
  next_match-Ended predicate left (panic ∷ rest) h = absurd (cc h)
  next_match-Ended predicate left (err e ∷ rest) h = absurd (cc h)
  next_match-Ended predicate left (ok right ∷ rest) h =
      match_or-Ended (accepts floats is_match predicate (left ++ right)) (left ++ right) rest
        (next_match floats is_match predicate left rest) (next_match-Ended predicate left rest) h
