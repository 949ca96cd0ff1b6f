-- ===== src/Sql/Execution/Join/NestedLoop.antt =====
-- src/sql/execution/join.rs: the nested loop join against a join of lists.
use toydb.Prelude.{
  ℕ, zero, suc, ◌+◌, ◌<◌, ◌≤◌, ◌≡◌, refl, sym, ◌∙◌, Bool, true, false, not, ◌&&◌, Option, none,
  some, List, [], ◌∷◌, ◌++◌, if◌then◌else◌, length, arith,
}
use toydb.Error.{Result, ok, err, panic, ◌>>=◌, >>=-ok}
use toydb.Encoding.Bytes.{Bytes}
use toydb.Sql.Types.Value.{Floats}
use toydb.Sql.Types.Expression.{Row, Expression}
use toydb.Sql.Execution.Join.{
  Rows, NestedLoopJoiner, new, nulls, next_match, next_from, try_next, collect, found_or, row_and,
}
use toydb.Sql.Execution.Join.Matches.{
  matches, matches-next_match, next_match-Took, next_match-Ended,
}

module _ (floats : Floats) (is_match : Bytes → Bytes → Result Bool) where
  abbrev Joined : Type 0
  Joined = Result (List (Row floats))

  -- In an outer join a left row without a match makes a row with NULLs.
  unfoldable pub pad : Bool → ℕ → Row floats → List (Row floats) → List (Row floats)
  pad outer columns left (row ∷ rows) = row ∷ rows
  pad true columns left [] = (left ++ nulls floats columns) ∷ []
  pad false columns left [] = []

  -- The join of two lists of rows.
  unfoldable pub join :
      Rows floats is_match
      → Rows floats is_match
      → ℕ
      → Option (Expression floats)
      → Bool
      → Result (List (Row floats))
  join [] right columns predicate outer = ok []
  join (row ∷ rest) right columns predicate outer = row >>= λ left.
      matches floats is_match predicate left right >>= λ rows.
      join rest right columns predicate outer >>= λ more. ok (pad outer columns left rows ++ more)

  abbrev Joiner : Type 0
  Joiner = NestedLoopJoiner floats is_match

  -- Whether a row with NULLs is still due for the current left row.
  abbrev is_due : Joiner → Bool
  is_due self = not self.right_matched && self.outer

  abbrev join_rest : Rows floats is_match → Joiner → Joined
  join_rest rest self = join rest self.right_original self.right_columns self.predicate self.outer

  -- What the joiner has still to return.
  unfoldable remaining : Rows floats is_match → Joiner → Joined
  remaining [] self = ok []
  remaining (row ∷ rest) self = row >>= λ left.
      matches floats is_match self.predicate left self.right >>= λ rows.
      join_rest rest self >>= λ more. ok (pad (is_due self) self.right_columns left rows ++ more)

  remaining-join :
      (rest : Rows floats is_match) (self : Joiner)
      → remaining rest
          (record self { left = rest; right = self.right_original; right_matched = false })
        ≡ join_rest rest self
  unfolding remaining join
  remaining-join [] self = refl
  remaining-join (row ∷ rest) self = refl

  pad-false :
      (columns : ℕ) (left : Row floats) (rows : List (Row floats))
      → pad false columns left rows ≡ rows
  unfolding pad
  pad-false columns left [] = refl
  pad-false columns left (row ∷ rows) = refl

  pad-first :
      (m j : Joined) (due : Bool) (columns : ℕ) (left row : Row floats)
      → ((m >>= λ rows. ok (row ∷ rows)) >>= λ rows.
          j >>= λ more. ok (pad due columns left rows ++ more))
        ≡ ((m >>= λ rows. j >>= λ more. ok (pad false columns left rows ++ more)) >>= λ rows.
            ok (row ∷ rows))
  unfolding pad
  pad-first panic j due columns left row = refl
  pad-first (err e) j due columns left row = refl
  pad-first (ok rows) panic due columns left row = refl
  pad-first (ok rows) (err e) due columns left row = refl
  pad-first (ok rows) (ok more) due columns left row = rw (pad-false columns left rows) refl

  pad-due :
      (j : Joined) (columns : ℕ) (left : Row floats)
      → (j >>= λ more. ok (pad true columns left [] ++ more)) ≡ (
          (j >>= λ more. ok (pad false columns left [] ++ more)) >>= λ rows.
          ok ((left ++ nulls floats columns) ∷ rows))
  unfolding pad
  pad-due panic columns left = refl
  pad-due (err e) columns left = refl
  pad-due (ok more) columns left = refl

  abbrev Stepped : Type 0
  Stepped = Result (Option (Row floats)) × Joiner

  -- A call returns the first row of what remains, and leaves the others.
  abbrev Splits : Joined → Stepped → Type 0
  Splits all (found, self) = all ≡ row_and floats found (remaining self.left self)

  found_or-Splits :
      (left : Row floats) (rest : Rows floats is_match) (self : Joiner)
      (found : Result (Option (Row floats))) (due : Bool) (later : Stepped)
      → self.left ≡ ok left ∷ rest
      → (found ≡ ok none → self.right ≡ [])
      → Splits (join_rest rest self) later
      → Splits
          (row_and floats found (matches floats is_match self.predicate left self.right) >>= λ rows.
            join_rest rest self >>= λ more. ok (pad due self.right_columns left rows ++ more))
          (found_or floats is_match left self found due later)
  unfolding found_or row_and remaining matches pad
  found_or-Splits left rest self panic due later h ended l = refl
  found_or-Splits left rest self (err e) due later h ended l = refl
  found_or-Splits left rest self (ok (some row)) due later h ended l = rw h (
      pad-first (matches floats is_match self.predicate left self.right) (join_rest rest self) due
        self.right_columns left row)
  found_or-Splits left rest self (ok none) true later h ended l =
      rw (h, ended refl) (pad-due (join_rest rest self) self.right_columns left)
  found_or-Splits left rest self (ok none) false later h ended l = >>=-ok (join_rest rest self) ∙ l

  remaining-next_from :
      (rest : Rows floats is_match) (self : Joiner)
      → Splits (remaining rest self) (next_from floats is_match rest self)
  unfolding next_from remaining row_and
  remaining-next_from [] self = refl
  remaining-next_from (panic ∷ rest) self = refl
  remaining-next_from (err e ∷ rest) self = refl
  remaining-next_from (ok left ∷ rest) self =
      let next : Result (Option (Row floats)) × Rows floats is_match =
        next_match floats is_match self.predicate left self.right in
      let reset : Joiner = record self {
        left = rest;
        right = self.right_original;
        right_matched = false;
      } in
      let later = sym (remaining-join rest self) ∙ remaining-next_from rest reset in
      rw (matches-next_match floats is_match self.predicate left self.right) (
        found_or-Splits left rest (record self { left = ok left ∷ rest; right = next.1 }) next.0
          (is_due self) (next_from floats is_match rest reset) refl
          (next_match-Ended floats is_match self.predicate left self.right) later)

  -- A bound on the calls that return a row, one more for each left row to come.
  unfoldable pub calls_after : Rows floats is_match → ℕ → ℕ
  calls_after [] per_row = 1
  calls_after (row ∷ rest) per_row = suc per_row + calls_after rest per_row

  unfoldable calls : Rows floats is_match → Joiner → ℕ
  calls [] self = 1
  calls (row ∷ rest) self =
      (if is_due self then 1 else 0)
      + length self.right
      + calls_after rest (length self.right_original)

  calls-reset :
      (rest : Rows floats is_match) (self : Joiner)
      → calls rest (record self { left = rest; right = self.right_original; right_matched = false })
        ≤ calls_after rest (length self.right_original)
  unfolding calls calls_after
  calls-reset [] self = omega arith
  calls-reset (row ∷ rest) self = ground arith

  abbrev Shortens : ℕ → Stepped → Type 0
  Shortens n (found, self) = (row : Row floats) → found ≡ ok (some row) → calls self.left self < n

  found_or-Shortens :
      (left : Row floats) (rest : Rows floats is_match) (self : Joiner)
      (found : Result (Option (Row floats))) (due : Bool) (later : Stepped) (n : ℕ)
      → self.left ≡ ok left ∷ rest
      → ((row : Row floats) → found ≡ ok (some row) → length self.right < n)
      → (found ≡ ok none → self.right ≡ [])
      → Shortens (calls_after rest (length self.right_original)) later
      → Shortens
          ((if due then 1 else 0) + n + calls_after rest (length self.right_original))
          (found_or floats is_match left self found due later)
  unfolding found_or calls
  found_or-Shortens left rest self panic due later n h took ended l row e = absurd (cc e)
  found_or-Shortens left rest self (err _) due later n h took ended l row e = absurd (cc e)
  found_or-Shortens left rest self (ok (some r)) due later n h took ended l row e =
      rw h (omega (arith, took r refl))
  found_or-Shortens left rest self (ok none) true later n h took ended l row e =
      rw (h, ended refl) (omega arith)
  found_or-Shortens left rest self (ok none) false later n h took ended l row e =
      omega (arith, l row e)

  next_from-Shortens :
      (rest : Rows floats is_match) (self : Joiner)
      → Shortens (calls rest self) (next_from floats is_match rest self)
  unfolding next_from calls
  next_from-Shortens [] self row h = absurd (cc h)
  next_from-Shortens (panic ∷ rest) self row h = absurd (cc h)
  next_from-Shortens (err e ∷ rest) self row h = absurd (cc h)
  next_from-Shortens (ok left ∷ rest) self row h =
      let next : Result (Option (Row floats)) × Rows floats is_match =
        next_match floats is_match self.predicate left self.right in
      let reset : Joiner = record self {
        left = rest;
        right = self.right_original;
        right_matched = false;
      } in
      found_or-Shortens left rest (record self { left = ok left ∷ rest; right = next.1 }) next.0
        (is_due self) (next_from floats is_match rest reset) (length self.right) refl
        (next_match-Took floats is_match self.predicate left self.right)
        (next_match-Ended floats is_match self.predicate left self.right)
        (λ r e. omega (arith, next_from-Shortens rest reset r e, calls-reset rest self)) row h

  row_and-cong :
      (found : Result (Option (Row floats))) (a b : Joined)
      → ((row : Row floats) → found ≡ ok (some row) → a ≡ b)
      → row_and floats found a ≡ row_and floats found b
  unfolding row_and
  row_and-cong panic a b h = refl
  row_and-cong (err e) a b h = refl
  row_and-cong (ok none) a b h = refl
  row_and-cong (ok (some row)) a b h = rw (h row refl) refl

  calls_after-pos : (rest : Rows floats is_match) (n : ℕ) → 1 ≤ calls_after rest n
  unfolding calls_after
  calls_after-pos [] n = omega arith
  calls_after-pos (row ∷ rest) n = omega (arith, calls_after-pos rest n)

  calls-pos : (rest : Rows floats is_match) (self : Joiner) → 1 ≤ calls rest self
  unfolding calls
  calls-pos [] self = omega arith
  calls-pos (row ∷ rest) self = omega (arith, calls_after-pos rest (length self.right_original))

  collect-remaining :
      (n : ℕ) (self : Joiner)
      → calls self.left self ≤ n
      → collect floats is_match n self ≡ remaining self.left self
  unfolding collect try_next
  collect-remaining zero self h = absurd (omega (arith, h, calls-pos self.left self))
  collect-remaining (suc n) self h =
      let step : Stepped = next_from floats is_match self.left self in
      row_and-cong step.0 (collect floats is_match n step.1) (remaining step.1.left step.1)
        (λ row e.
          collect-remaining n step.1 (omega (arith, next_from-Shortens self.left self row e, h)))
      ∙ sym (remaining-next_from self.left self)

  -- The nested loop join ends, and returns the rows of the join of the two lists, up to the first
  -- error of a source or of the predicate, if it is called often enough: for each left row once
  -- for each right row and once more, and once at the end.
  pub collect-new :
      (left right : Rows floats is_match) (right_columns : ℕ)
      (predicate : Option (Expression floats)) (outer : Bool) (calls : ℕ)
      → calls_after left (length right) ≤ calls
      → collect floats is_match calls (new floats is_match left right right_columns predicate outer)
        ≡ join left right right_columns predicate outer
  unfolding new
  collect-new left right right_columns predicate outer n h =
      let self : Joiner = new floats is_match left right right_columns predicate outer in
      collect-remaining n self (omega (arith, calls-reset left self, h)) ∙ remaining-join left self
