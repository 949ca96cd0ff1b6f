-- ===== src/Sql/Execution/HashJoin/Matches.antt =====
-- src/sql/execution/join.rs: what the map of the hash join holds for a key.
use toydb.Prelude.{
  ℕ, ◌≡◌, refl, sym, ap, ◌∙◌, Bool, true, false, not, ◌&&◌, Option, none, some, List, [], ◌∷◌, ◌++◌,
  map, append_assoc, append-nil, if◌then◌else◌, All, inl, inr, Bool-cases,
}
use toydb.Error.{Result, ok}
use toydb.Sql.Types.Value.{Floats, Value, is_undefined}
use toydb.Sql.Types.Expression.{Row, column_value}
use toydb.Sql.Execution.HashJoin.{HashMap, get, push, build}

module _ (floats : Floats) (same_key : Value floats → Value floats → Bool) where
  abbrev V : Type 0
  V = Value floats

  abbrev R : Type 0
  R = Row floats

  -- What a `HashMap` asks of its keys: to be the same is symmetric and transitive.
  pub record IsSame : Type 0 where
    pub symmetric : (a b : V) → same_key a b ≡ same_key b a
    pub transitive : (a b c : V) → same_key a b ≡ true → same_key a c ≡ same_key b c

  -- The right rows for a key, each row given with its own.
  unfoldable pub rows_for : V → List (V × R) → List R
  rows_for key [] = []
  rows_for key ((own, row) ∷ rows) =
      let rest = rows_for key rows in
      if not (is_undefined floats own) && same_key own key then row ∷ rest else rest

  -- The rows that a map holds, and more.
  abbrev pub extend : Option (List R) → List R → Option (List R)
  extend (some rows) more = some (rows ++ more)
  extend none [] = none
  extend none (row ∷ rows) = some (row ∷ rows)

  -- The keys of the rows are the values of the column that the join is on.
  abbrev pub HaveKeys : ℕ → List (V × R) → Type 0
  HaveKeys column = All (λ r. column_value floats (some r.1) column ≡ ok r.0)

  abbrev pub source : List (V × R) → List (Result R)
  source = map (λ r. ok r.1)

  module _ (same : IsSame) where
    get-push :
        (key own : V) (row : R) (entries : HashMap floats same_key)
        → get floats same_key key (push floats same_key own row entries) ≡ (
            let found = get floats same_key key entries in
            if same_key own key then extend found (row ∷ []) else found)
    unfolding get push
    get-push key own row [] = refl
    get-push key own row ((k, rows) ∷ entries) = elim (Bool-cases (same_key k own)) [
      | inl e ↦
          rw (e, same.transitive k own key e)
            (elim (Bool-cases (same_key own key)) [ inl f ↦ rw f refl | inr f ↦ rw f refl ])
      | inr e ↦ rw e (elim (Bool-cases (same_key k key)) [
        | inl f ↦ rw (f, other k e f) refl
        | inr f ↦ rw f (get-push key own row entries)
      ])
    ]
      where
        other : (k : V) → same_key k own ≡ false → same_key k key ≡ true → same_key own key ≡ false
        other k e f = same.symmetric own key ∙ (sym (same.transitive k key own f) ∙ e)

    extend-extend :
        (found : Option (List R)) (row : R) (more : List R)
        → extend (extend found (row ∷ [])) more ≡ extend found (row ∷ more)
    extend-extend none row more = refl
    extend-extend (some rows) row more = ap some (append_assoc rows (row ∷ []) more)

    extend-nil : (found : Option (List R)) → extend found [] ≡ found
    extend-nil none = refl
    extend-nil (some rows) = ap some (append-nil rows)

    abbrev pub Holds : HashMap floats same_key → List (V × R) → HashMap floats same_key → Type 0
    Holds before rows after =
        (key : V)
        → get floats same_key key after
          ≡ extend (get floats same_key key before) (rows_for key rows)

    added-extend :
        (key own : V) (row : R) (entries : HashMap floats same_key) (more : List R)
        → extend
            (get floats same_key key
              (if is_undefined floats own then entries else push floats same_key own row entries))
            more
          ≡ extend
              (get floats same_key key entries)
              (if not (is_undefined floats own) && same_key own key then row ∷ more else more)
    added-extend key own row entries more = elim (Bool-cases (is_undefined floats own)) [
      | inl e ↦ rw e refl
      | inr e ↦
          rw (e, get-push key own row entries)
            (elim (Bool-cases (same_key own key)) [
              | inl f ↦ rw f (extend-extend (get floats same_key key entries) row more)
              | inr f ↦ rw f refl
            ])
    ]

    pub build-Holds :
        (column : ℕ) (rows : List (V × R)) (entries : HashMap floats same_key)
        → HaveKeys column rows
        → (built : HashMap floats same_key) × (build floats same_key column (source rows) entries
            ≡ ok built)
          × Holds entries rows built
    unfolding build rows_for
    build-Holds column [] entries h =
        (entries, refl, λ key. sym (extend-nil (get floats same_key key entries)))
    build-Holds column ((own, row) ∷ rows) entries h =
        let (built, e, holds) = build-Holds column rows (added own row entries) h.1 in
        (built, rw (h.0) e, λ key. holds key ∙ added-extend key own row entries (rows_for key rows))
      where
        added : V → R → HashMap floats same_key → HashMap floats same_key
        added own row entries =
            if is_undefined floats own then entries else push floats same_key own row entries
