-- ===== src/Storage/BTreeMap/Order.antt =====
-- The operations of the ordered map keep its keys ascending.
use toydb.Prelude.{Bool, Bool-cases, true, ◌≡◌, [], ◌∷◌, All, keep, arith, inl, inr}
use toydb.Encoding.Bytes.{
  Bytes, Range, lex_lt, eq_bytes, eq_bytes→eq, lex_lt_trans, lex_lt_connex, eq_bytes_iff,
}
use toydb.Storage.BTreeMap.{Entry, BTreeMap, insert, remove, select, Below, IsAscending}

module _ {V : Type 0} where
  keep-All {κ} :
      (P : Entry V → Type κ) (p : Entry V → Bool) (m : BTreeMap V) → All P m → All P (keep p m)
  keep-All P p [] h = h
  keep-All P p (e ∷ m) h = elim (Bool-cases (p e)) [
    | inl y ↦ rw y (h.0, keep-All P p m h.1)
    | inr n ↦ rw n (keep-All P p m h.1)
  ]

  pub keep-IsAscending :
      (p : Entry V → Bool) (m : BTreeMap V) → IsAscending m → IsAscending (keep p m)
  keep-IsAscending p [] h = h
  keep-IsAscending p (e ∷ m) h = elim (Bool-cases (p e)) [
    | inl y ↦ rw y (keep-All _ p m h.0, keep-IsAscending p m h.1)
    | inr n ↦ rw n (keep-IsAscending p m h.1)
  ]

  pub remove-IsAscending : (k : Bytes) (m : BTreeMap V) → IsAscending m → IsAscending (remove k m)
  unfolding remove
  remove-IsAscending k m h = keep-IsAscending _ m h

  pub select-IsAscending : (r : Range) (m : BTreeMap V) → IsAscending m → IsAscending (select r m)
  unfolding select
  select-IsAscending r m h = keep-IsAscending _ m h

  pub Below-trans : (k j : Bytes) (m : BTreeMap V) → lex_lt k j ≡ true → Below j m → Below k m
  Below-trans k j [] h b = tt
  Below-trans k j (e ∷ m) h b = (lex_lt_trans k j e.0 h b.0, Below-trans k j m h b.1)

  insert-Below :
      (j k : Bytes) (v : V) (m : BTreeMap V)
      → lex_lt j k ≡ true
      → Below j m
      → Below j (insert k v m)
  unfolding insert
  insert-Below j k v [] h b = (h, tt)
  insert-Below j k v (e ∷ m) h b = ground (arith, insert-Below j k v m h b.1)

  pub insert-IsAscending :
      (k : Bytes) (v : V) (m : BTreeMap V) → IsAscending m → IsAscending (insert k v m)
  unfolding insert
  insert-IsAscending k v [] h = (tt, tt)
  insert-IsAscending k v (e ∷ m) h = elim (Bool-cases (lex_lt k e.0)) [
    | inl lt ↦ rw lt ((lt, Below-trans k e.0 m lt h.0), h)
    | inr ge ↦ rw ge (elim (Bool-cases (eq_bytes e.0 k)) [
      | inl same ↦ rw same (rw (eq_bytes→eq e.0 k same) at h.0, h.1)
      | inr other ↦ rw other (
        insert-Below e.0 k v m
            (ground (arith, lex_lt_connex e.0 k, eq_bytes_iff e.0 k, Bool-cases (lex_lt e.0 k)))
            h.0,
        insert-IsAscending k v m h.1,
      )
    ])
  ]
