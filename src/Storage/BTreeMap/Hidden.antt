-- ===== src/Storage/BTreeMap/Hidden.antt =====
-- Two maps that differ only at keys with a property, and scans that do not see those keys.
use toydb.Prelude.{Bool-cases, false, ◌≡◌, [], ◌∷◌, ◌++◌, reverse, reverse-cons, ◌⊎◌, inl, inr}
use toydb.Encoding.Bytes.{Bytes, Range, lex_lt, eq_bytes, eq_bytes→eq, in_range}
use toydb.Storage.BTreeMap.{Entry, BTreeMap, insert, remove, select}

pub data SameExcept {V : Type 0} (P : Bytes → Type 0) : BTreeMap V → BTreeMap V → Type 0 where
  done : SameExcept P [] []
  both : (e : Entry V) {m n : BTreeMap V} → SameExcept P m n → SameExcept P (e ∷ m) (e ∷ n)
  left : (e : Entry V) {m n : BTreeMap V} → P e.0 → SameExcept P m n → SameExcept P (e ∷ m) n
  right : (e : Entry V) {m n : BTreeMap V} → P e.0 → SameExcept P m n → SameExcept P m (e ∷ n)

module _ {V : Type 0} {P : Bytes → Type 0} where
  pub SameExcept-refl : (m : BTreeMap V) → SameExcept P m m
  SameExcept-refl [] = done
  SameExcept-refl (e ∷ m) = both e (SameExcept-refl m)

  pub SameExcept-insert : (k : Bytes) (v : V) (m : BTreeMap V) → P k → SameExcept P m (insert k v m)
  unfolding insert
  SameExcept-insert k v [] h = right (k, v) h done
  SameExcept-insert k v (e ∷ m) h = elim (Bool-cases (lex_lt k e.0)) [
    | inl lt ↦ rw lt (right (k, v) h (both e (SameExcept-refl m)))
    | inr ge ↦ rw ge (elim (Bool-cases (eq_bytes e.0 k)) [
      | inl same ↦
          rw same (left e (rw (eq_bytes→eq e.0 k same) h) (right (k, v) h (SameExcept-refl m)))
      | inr other ↦ rw other (both e (SameExcept-insert k v m h))
    ])
  ]

  pub SameExcept-remove : (k : Bytes) (m : BTreeMap V) → P k → SameExcept P m (remove k m)
  unfolding remove
  SameExcept-remove k [] h = done
  SameExcept-remove k (e ∷ m) h = elim (Bool-cases (eq_bytes e.0 k)) [
    | inl same ↦ rw same (left e (rw (eq_bytes→eq e.0 k same) h) (SameExcept-remove k m h))
    | inr other ↦ rw other (both e (SameExcept-remove k m h))
  ]

  SameExcept-append :
      {m n p q : BTreeMap V} → SameExcept P m n → SameExcept P p q → SameExcept P (m ++ p) (n ++ q)
  SameExcept-append done t = t
  SameExcept-append (both e s) t = both e (SameExcept-append s t)
  SameExcept-append (left e h s) t = left e h (SameExcept-append s t)
  SameExcept-append (right e h s) t = right e h (SameExcept-append s t)

  append_left :
      (e : Entry V) {m n : BTreeMap V} → P e.0 → SameExcept P m n → SameExcept P (m ++ e ∷ []) n
  append_left e h done = left e h done
  append_left e h (both f s) = both f (append_left e h s)
  append_left e h (left f g s) = left f g (append_left e h s)
  append_left e h (right f g s) = right f g (append_left e h s)

  append_right :
      (e : Entry V) {m n : BTreeMap V} → P e.0 → SameExcept P m n → SameExcept P m (n ++ e ∷ [])
  append_right e h done = right e h done
  append_right e h (both f s) = both f (append_right e h s)
  append_right e h (left f g s) = left f g (append_right e h s)
  append_right e h (right f g s) = right f g (append_right e h s)

  pub SameExcept-reverse :
      {m n : BTreeMap V} → SameExcept P m n → SameExcept P (reverse m) (reverse n)
  SameExcept-reverse done = done
  SameExcept-reverse (both e {m = m} {n = n} s) =
      rw (reverse-cons e m, reverse-cons e n)
        (SameExcept-append (SameExcept-reverse s) (both e done))
  SameExcept-reverse (left e {m = m} {n = n} h s) =
      rw (reverse-cons e m) (append_left e h (SameExcept-reverse s))
  SameExcept-reverse (right e {m = m} {n = n} h s) =
      rw (reverse-cons e n) (append_right e h (SameExcept-reverse s))

-- A range scan keeps the difference to the keys that lie in the range.
pub SameExcept-select :
    {V : Type 0} (P Q : Bytes → Type 0) (r : Range) {m n : BTreeMap V}
    → ((k : Bytes) → P k → (in_range r k ≡ false) ⊎ Q k)
    → SameExcept P m n
    → SameExcept Q (select r m) (select r n)
unfolding select
SameExcept-select P Q r f done = done
SameExcept-select P Q r f (both e s) = elim (Bool-cases (in_range r e.0)) [
  | inl y ↦ rw y (both e (SameExcept-select P Q r f s))
  | inr n ↦ rw n (SameExcept-select P Q r f s)
]
SameExcept-select P Q r f (left e h s) = elim (Bool-cases (in_range r e.0)) [
  | inl y ↦ rw y (elim (f e.0 h) [ inl out ↦ cc | inr q ↦ left e q (SameExcept-select P Q r f s) ])
  | inr n ↦ rw n (SameExcept-select P Q r f s)
]
SameExcept-select P Q r f (right e h s) = elim (Bool-cases (in_range r e.0)) [
  | inl y ↦ rw y (elim (f e.0 h) [ inl out ↦ cc | inr q ↦ right e q (SameExcept-select P Q r f s) ])
  | inr n ↦ rw n (SameExcept-select P Q r f s)
]
