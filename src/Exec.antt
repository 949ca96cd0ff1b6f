-- ===== src/Exec.antt =====
-- Methods that change an object and may fail. What was written before a failure stays written, so
-- the state comes back beside the error too.
use toydb.Prelude.{List, [], ◌∷◌, Bool, true, false, ◌≡◌, refl, ◌⊎◌, inl, inr}
use toydb.Error.{Error, Result, ok, err, panic, panic-ne}

abbrev pub Exec : Type 0 → Type 0 → Type 0
Exec S A = S → Result A × S

module _ {S A : Type 0} where
  abbrev pub pure : A → Exec S A
  pure a s = (ok a, s)

  abbrev pub raise : Error → Exec S A
  raise e s = (err e, s)

  abbrev pub lift : Result A → Exec S A
  lift r s = (r, s)

  -- A method that only reads the object.
  abbrev pub reads : (S → Result A) → Exec S A
  reads f s = (f s, s)

module _ {S A B : Type 0} where
  abbrev pub continue : Result A → (A → Exec S B) → Exec S B
  continue panic next s = (panic, s)
  continue (err error) next s = (err error, s)
  continue (ok value) next s = next value s

  infixl 5 ◌>>=◌ ◌>>◌
  abbrev pub ◌>>=◌ : Exec S A → (A → Exec S B) → Exec S B
  ◌>>=◌ m f s = continue (m s).0 f (m s).1

  abbrev pub ◌>>◌ : (first : Exec S A) (second : Exec S B) → Exec S B
  first >> second = first >>= λ _. second

module _ {S A : Type 0} where
  -- `for x in xs { body(x)? }`
  unfoldable pub for_each : List A → (A → Exec S (Unit {0})) → Exec S (Unit {0})
  for_each [] body = pure tt
  for_each (x ∷ xs) body = let rest = for_each xs body in body x >> rest

unfoldable pub when : {S : Type 0} → Bool → Exec S (Unit {0}) → Exec S (Unit {0})
when true m = m
when false m = pure tt

-- `assert!`
unfoldable pub ensure : {S : Type 0} → Bool → Exec S (Unit {0})
ensure true s = (ok tt, s)
ensure false s = (panic, s)

-- Replaces the object.
abbrev pub put : {S : Type 0} → S → Exec S (Unit {0})
put t s = (ok tt, t)

-- The object as it is.
abbrev pub self : {S : Type 0} → Exec S S
self s = (ok s, s)

-- After an action that only reads, the rest runs on the same object, if it runs.
pub read-cases :
    {S A B : Type 0} (m : Exec S A) (f : A → Exec S B) (s : S)
    → (m s).1 ≡ s
    → (((m >>= f) s).1 ≡ s) ⊎ ((a : A) × ((m s).0 ≡ ok a) × (((m >>= f) s).1 ≡ (f a s).1))
read-cases {S} {A} {B} m f s h = by_result (m s).0 refl
  where
    by_result :
        (r : Result A)
        → (m s).0 ≡ r
        → (((m >>= f) s).1 ≡ s) ⊎ ((a : A) × ((m s).0 ≡ ok a) × (((m >>= f) s).1 ≡ (f a s).1))
    by_result (ok a) q = inr (a, q, rw (q, h) refl)
    by_result (err e) q = inl (rw (q, h) refl)
    by_result panic q = inl (rw (q, h) refl)

pub ensure-same : {S : Type 0} (b : Bool) (s : S) → (ensure b s).1 ≡ s
unfolding ensure
ensure-same true s = refl
ensure-same false s = refl

pub ensure-true : {S : Type 0} (b : Bool) (s : S) {u : Unit {0}} → (ensure b s).0 ≡ ok u → b ≡ true
unfolding ensure
ensure-true true s h = refl
ensure-true false s h = panic-ne h
