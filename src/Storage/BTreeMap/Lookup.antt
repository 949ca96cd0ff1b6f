-- ===== src/Storage/BTreeMap/Lookup.antt =====
-- What lookups and range scans see of the ordered map.
use toydb.Prelude.{
  Bool-cases, true, false, ◌≡◌, ◌≢◌, refl, ap, ◌∙◌, none, some, [], ◌∷◌, ◌++◌, reverse,
  reverse-cons, if◌then◌else◌, All, last?, arith, inl, inr,
}
use toydb.Encoding.Bytes.{
  Bytes, included, Range, lex_lt, eq_bytes, eq_bytes→eq, eq_bytes_refl, lex_lt_irrefl, eq_bytes_iff,
  in_range,
}
use toydb.Storage.BTreeMap.Order.{Below-trans}
use toydb.Storage.BTreeMap.{Entry, BTreeMap, get, insert, remove, select, Below, IsAscending}

pub eq_bytes_congr : (i j k : Bytes) → eq_bytes i j ≡ true → eq_bytes i k ≡ eq_bytes j k
eq_bytes_congr i j k h = ap (λ (b : Bytes). eq_bytes b k) (eq_bytes→eq i j h)

eq_bytes_join : (i j k : Bytes) → eq_bytes i j ≡ true → eq_bytes k j ≡ true → eq_bytes i k ≡ true
eq_bytes_join i j k h g = rw (eq_bytes→eq i j h, eq_bytes→eq k j g) (eq_bytes_refl j)

module _ {V : Type 0} where
  -- A lookup after a write, at the written key and at every other.
  pub get-insert :
      (k j : Bytes) (v : V) (m : BTreeMap V)
      → get j (insert k v m) ≡ (if eq_bytes k j then some v else get j m)
  unfolding get insert
  get-insert k j v [] = refl
  get-insert k j v ((i, w) ∷ m) =
      ground (arith, get-insert k j v m, eq_bytes_congr i k j, eq_bytes_join i j k)

  -- A lookup after a deletion, at the deleted key and at every other.
  pub get-remove :
      (k j : Bytes) (m : BTreeMap V) → get j (remove k m) ≡ (if eq_bytes k j then none else get j m)
  unfolding get remove
  get-remove k j [] = ground arith
  get-remove k j ((i, w) ∷ m) =
      ground (arith, get-remove k j m, eq_bytes_congr i k j, eq_bytes_join i j k)

  pub get-insert_self : (k : Bytes) (v : V) (m : BTreeMap V) → get k (insert k v m) ≡ some v
  get-insert_self k v m = rw (get-insert k k v m, eq_bytes_refl k)

  pub get-insert_ne :
      (k j : Bytes) (v : V) (m : BTreeMap V) → k ≢ j → get j (insert k v m) ≡ get j m
  get-insert_ne k j v m h = rw (get-insert k j v m) (ground (arith, eq_bytes_iff k j))

  pub get-remove_ne : (k j : Bytes) (m : BTreeMap V) → k ≢ j → get j (remove k m) ≡ get j m
  get-remove_ne k j m h = rw (get-remove k j m) (ground (arith, eq_bytes_iff k j))

  pub select-cons :
      (r : Range) (e : Entry V) (m : BTreeMap V)
      → select r (e ∷ m) ≡ (if in_range r e.0 then e ∷ select r m else select r m)
  unfolding select
  select-cons r e m = refl

  pub select-All : (r : Range) (m : BTreeMap V) → All (λ e. in_range r e.0 ≡ true) (select r m)
  unfolding select
  select-All r [] = tt
  select-All r (e ∷ m) = elim (Bool-cases (in_range r e.0)) [
    | inl y ↦ rw y (y, select-All r m)
    | inr n ↦ rw n (select-All r m)
  ]

  -- A scan finds the keys of its range, with their values.
  pub get-select :
      (r : Range) (k : Bytes) (m : BTreeMap V)
      → get k (select r m) ≡ (if in_range r k then get k m else none)
  unfolding get select
  get-select r k [] = ground arith
  get-select r k ((j, v) ∷ m) = elim (Bool-cases (eq_bytes j k)) [
    | inl same ↦ rw (eq_bytes→eq j k same) (ground (arith, get-select r k m, eq_bytes_refl k))
    | inr other ↦ ground (arith, get-select r k m)
  ]

  select-Below :
      (lo hi : Bytes) (m : BTreeMap V) → Below hi m → select (included lo, included hi) m ≡ []
  unfolding select in_range
  select-Below lo hi [] b = refl
  select-Below lo hi (e ∷ m) b = ground (arith, select-Below lo hi m b.1)

  select-at_end :
      (lo hi : Bytes) (v : V) (m : BTreeMap V)
      → lex_lt hi lo ≡ false
      → Below hi m
      → select (included lo, included hi) ((hi, v) ∷ m) ≡ (hi, v) ∷ []
  select-at_end lo hi v m h b =
      unfold in_range in
      ground (
        arith,
        select-cons (included lo, included hi) (hi, v) m,
        select-Below lo hi m b,
        lex_lt_irrefl hi,
      )

  last?-cons : (e f : Entry V) (m : BTreeMap V) → last? m ≡ some f → last? (e ∷ m) ≡ some f
  last?-cons e f [] h = cc
  last?-cons e f (x ∷ m) h = h

  last?-select-cons :
      (r : Range) (e f : Entry V) (m : BTreeMap V)
      → last? (select r m) ≡ some f
      → last? (select r (e ∷ m)) ≡ some f
  last?-select-cons r e f m h = rw (select-cons r e m) (elim (Bool-cases (in_range r e.0)) [
    | inl y ↦ rw y (last?-cons e f (select r m) h)
    | inr n ↦ rw n h
  ])

  -- The last entry of a scan whose end bound was just written is the one written.
  pub last?-select-insert :
      (lo hi : Bytes) (v : V) (m : BTreeMap V)
      → lex_lt hi lo ≡ false
      → IsAscending m
      → last? (select (included lo, included hi) (insert hi v m)) ≡ some (hi, v)
  unfolding insert
  last?-select-insert lo hi v [] h a = rw (select-at_end lo hi v [] h tt)
  last?-select-insert lo hi v (e ∷ m) h a = elim (Bool-cases (lex_lt hi e.0)) [
    | inl lt ↦ rw (lt, select-at_end lo hi v (e ∷ m) h (lt, Below-trans hi e.0 m lt a.0))
    | inr ge ↦ rw ge (elim (Bool-cases (eq_bytes e.0 hi)) [
      | inl same ↦ rw (same, select-at_end lo hi v m h (rw (eq_bytes→eq e.0 hi same) at a.0))
      | inr other ↦ rw other (
          last?-select-cons (included lo, included hi) e (hi, v) (insert hi v m)
            (last?-select-insert lo hi v m h a.1))
    ])
  ]

  pub reverse-last? :
      (e : Entry V) (m : BTreeMap V) → last? m ≡ some e → (r : BTreeMap V) × (reverse m ≡ e ∷ r)
  reverse-last? e [] h = cc
  reverse-last? e (x ∷ []) h = ([], ground arith)
  reverse-last? e (x ∷ y ∷ m) h =
      let (r, q) = reverse-last? e (y ∷ m) h in
      (r ++ x ∷ [], reverse-cons x (y ∷ m) ∙ ap (λ (z : BTreeMap V). z ++ x ∷ []) q)
