-- ===== src/Storage/Mvcc/Scan/Reopen.antt =====
-- src/storage/mvcc.rs: a scan that is opened again at an entry returns the entries from there on.
use toydb.Prelude.{
  ◌≡◌, refl, sym, ap, ◌∙◌, Bool, true, false, not, ◌&&◌, List, [], ◌∷◌, map, keep, inl, inr,
  Bool-cases, arith,
}
use toydb.Error.{ok, panic-ne, ok_injective}
use toydb.Encoding.Bytes.{
  Bytes, Bound, included, excluded, unbounded, above, in_range, is_reversed, lex_lt, lex_lt_irrefl,
  lex_lt_trans, lex_lt_asymm, lex_lt_connex,
}
use toydb.Storage.BTreeMap.{BTreeMap, select, range, Below, IsAscending}
use toydb.Storage.BTreeMap.Order.{select-IsAscending}
use toydb.Storage.BTreeMap.Lookup.{select-All}
use toydb.Storage.Mvcc.Scan.{Item}
use toydb.Storage.Mvcc.Scan.Versions.{entry, Suffix, whole, skip, Suffix-All}

Suffix-map : {xs ys : List Item} → Suffix xs ys → Suffix (map entry xs) (map entry ys)
Suffix-map whole = whole
Suffix-map (skip s) = skip (Suffix-map s)

abbrev from_key : Bytes → Bytes × Bytes → Bool
from_key k e = not (lex_lt e.0 k)

above-from_key :
    (lo : Bound Bytes) (k j : Bytes) → above lo k ≡ true → lex_lt j k ≡ false → above lo j ≡ true
above-from_key (included lo) k j h n = ground (arith, lex_lt_trans j lo k, lex_lt_connex lo k, h, n)
above-from_key (excluded lo) k j h n = ground (arith, lex_lt_trans lo k j, lex_lt_connex k j, h, n)
above-from_key unbounded k j h n = refl

in_range-from_key :
    (lo hi : Bound Bytes) (k j : Bytes)
    → above lo k ≡ true
    → in_range (included k, hi) j ≡ (in_range (lo, hi) j && not (lex_lt j k))
unfolding in_range
in_range-from_key lo hi k j h = elim (Bool-cases (lex_lt j k)) [
  | inl lt ↦ rw lt (ground arith)
  | inr ge ↦ rw (ge, above-from_key lo k j h ge) (ground arith)
]

keep-keep :
    (p q r : Bytes × Bytes → Bool) (m : BTreeMap Bytes)
    → ((e : Bytes × Bytes) → r e ≡ (p e && q e))
    → keep r m ≡ keep q (keep p m)
keep-keep p q r [] h = refl
keep-keep p q r (e ∷ m) h = elim (Bool-cases (p e)) [
  | inl y ↦ elim (Bool-cases (q e)) [
    | inl z ↦ rw (h e, y, z) (ap (λ l. e ∷ l) (keep-keep p q r m h))
    | inr z ↦ rw (h e, y, z) (keep-keep p q r m h)
  ]
  | inr n ↦ rw (h e, n) (keep-keep p q r m h)
]

select-from_key :
    (lo hi : Bound Bytes) (k : Bytes) (m : BTreeMap Bytes)
    → above lo k ≡ true
    → select (included k, hi) m ≡ keep (from_key k) (select (lo, hi) m)
unfolding select
select-from_key lo hi k m h =
    keep-keep (λ e. in_range (lo, hi) e.0) (from_key k) (λ e. in_range (included k, hi) e.0) m
      (λ e. in_range-from_key lo hi k e.0 h)

keep-Below : (k : Bytes) (m : BTreeMap Bytes) → Below k m → keep (from_key k) m ≡ m
keep-Below k [] h = refl
keep-Below k (e ∷ m) h = rw (lex_lt_asymm k e.0 h.0) (ap (λ l. e ∷ l) (keep-Below k m h.1))

keep-Suffix :
    (e : Bytes × Bytes) (post m : BTreeMap Bytes)
    → IsAscending m
    → Suffix (e ∷ post) m
    → keep (from_key e.0) m ≡ e ∷ post
keep-Suffix e post m h whole = rw (lex_lt_irrefl e.0) (ap (λ l. e ∷ l) (keep-Below e.0 post h.0))
keep-Suffix e post (y ∷ m) h (skip s) =
    rw ((Suffix-All (λ x. lex_lt y.0 x.0 ≡ true) s h.0).0) (keep-Suffix e post m h.1 s)

is_reversed-from_key :
    (lo hi : Bound Bytes) (k : Bytes)
    → in_range (lo, hi) k ≡ true
    → (is_reversed (included k, hi) ≡ false) × (above lo k ≡ true)
unfolding is_reversed in_range
is_reversed-from_key lo (included hi) k h = ground (arith, h)
is_reversed-from_key lo (excluded hi) k h = ground (arith, lex_lt_asymm k hi, h)
is_reversed-from_key lo unbounded k h = ground (arith, h)

-- A range that scans the given items, opened again at one of them, scans that and those behind.
pub range-Suffix :
    (lo hi : Bound Bytes) (m : BTreeMap Bytes) (i : Item) (rest items : List Item)
    → IsAscending m
    → range (lo, hi) m ≡ ok (map entry items)
    → Suffix (i ∷ rest) items
    → range (included (entry i).0, hi) m ≡ ok (map entry (i ∷ rest))
unfolding range
range-Suffix lo hi m i rest items a h s = elim (Bool-cases (is_reversed (lo, hi))) [
  | inl e ↦ panic-ne (sym (rw e refl) ∙ h)
  | inr e ↦
      let selected : select (lo, hi) m ≡ map entry items = ok_injective (sym (rw e refl) ∙ h) in
      let there = Suffix-map s in
      let inside : in_range (lo, hi) (entry i).0 ≡ true =
        (Suffix-All (λ x. in_range (lo, hi) x.0 ≡ true) there
          (rw (sym selected) (select-All (lo, hi) m))).0 in
      let (forward, start) = is_reversed-from_key lo hi (entry i).0 inside in
      rw forward (
        ap ok (
          select-from_key lo hi (entry i).0 m start
          ∙ ap (keep (from_key (entry i).0)) selected
          ∙ keep-Suffix (entry i) (map entry rest) (map entry items)
              (rw (sym selected) (select-IsAscending (lo, hi) m a)) there))
]
