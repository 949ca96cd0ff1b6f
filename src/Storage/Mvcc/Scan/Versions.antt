-- ===== src/Storage/Mvcc/Scan/Versions.antt =====
-- src/storage/mvcc.rs: what the version iterator and its lookahead find in a list of versions.
use toydb.Prelude.{
  ◌<◌, ◌≡◌, refl, true, false, none, some, List, [], ◌∷◌, map, keep, All, inl, inr, Bool-cases,
}
use toydb.Error.{ok}
use toydb.Encoding.Bytes.{Bytes}
use toydb.Encoding.Keycode.{u64_mod}
use toydb.Storage.Mvcc.Key.{version, encode}
use toydb.Storage.Mvcc.Key.Codec.{decode-encode}
use toydb.Storage.Mvcc.{TransactionState, is_visible}
use toydb.Storage.Mvcc.Scan.{Item, Next, Entries, visible_or, try_next}

-- The engine's entry of a version.
abbrev pub entry : Item → Bytes × Bytes
entry (key, v, value) = (encode (version key v), value)

abbrev pub FitsItem : Item → Type 0
FitsItem (key, v, value) = v < u64_mod

-- The end of a list.
pub data Suffix {A : Type 0} (xs : List A) : List A → Type 0 where
  whole : Suffix xs xs
  skip : {y : A} {ys : List A} → Suffix xs ys → Suffix xs (y ∷ ys)

pub Suffix-tail : {A : Type 0} {x : A} {xs ys : List A} → Suffix (x ∷ xs) ys → Suffix xs ys
Suffix-tail whole = skip whole
Suffix-tail (skip s) = skip (Suffix-tail s)

pub Suffix-trans : {A : Type 0} {xs ys zs : List A} → Suffix xs ys → Suffix ys zs → Suffix xs zs
Suffix-trans s whole = s
Suffix-trans s (skip t) = skip (Suffix-trans s t)

pub Suffix-All : {A : Type 0} (P : A → Type 0) {xs ys : List A} → Suffix xs ys → All P ys → All P xs
Suffix-All P whole h = h
Suffix-All P (skip s) h = Suffix-All P s h.1

module _ (txn : TransactionState) where
  abbrev pub visible : List Item → List Item
  visible = keep (λ i. is_visible txn i.1)

  -- What the next call finds: nothing, or the first visible item, with the items behind it.
  pub data Found (items : List Item) : Next × Entries → Type 0 where
    nothing : visible items ≡ [] → Found items (ok none, [])
    item :
        (i : Item) (rest : List Item)
        → is_visible txn i.1 ≡ true
        → visible items ≡ i ∷ visible rest
        → Suffix (i ∷ rest) items
        → Found items (ok (some i), map entry rest)

  Found-skip :
      (i : Item) (items : List Item) {r : Next × Entries}
      → is_visible txn i.1 ≡ false
      → Found items r
      → Found (i ∷ items) r
  Found-skip i items h (nothing e) = nothing (rw h e)
  Found-skip i items h (item j rest v e s) = item j rest v (rw h e) (skip s)

  pub try_next-Found :
      (items : List Item) → All FitsItem items → Found items (try_next txn (map entry items))
  unfolding try_next visible_or
  try_next-Found [] h = nothing refl
  try_next-Found ((key, v, value) ∷ items) h =
      rw (decode-encode (version key v) h.0) (elim (Bool-cases (is_visible txn v)) [
        | inl e ↦ rw e (item (key, v, value) items e (rw e refl) whole)
        | inr e ↦ rw e (Found-skip (key, v, value) items e (try_next-Found items h.1))
      ])
