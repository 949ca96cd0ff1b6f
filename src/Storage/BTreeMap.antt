-- ===== src/Storage/BTreeMap.antt =====
-- The standard library's `BTreeMap<Vec<u8>, V>`, as src/storage uses it: a list of entries whose
-- keys ascend in the lexicographic order of bytes.
pub mod Order
pub mod Lookup
pub mod Hidden
use toydb.Prelude.{
  Bool, true, not, ◌≡◌, Option, none, some, List, [], ◌∷◌, if◌then◌else◌, All, keep, ◌&&◌,
}
use toydb.Error.{Result, ok, panic}
use toydb.Encoding.Bytes.{
  Bytes, Range, Bound, included, excluded, unbounded, lex_lt, eq_bytes, in_range, is_reversed,
}

abbrev pub Entry : Type 0 → Type 0
Entry V = Bytes × V

abbrev pub BTreeMap : Type 0 → Type 0
BTreeMap V = List (Entry V)

module _ {V : Type 0} where
  unfoldable pub get : Bytes → BTreeMap V → Option V
  get k [] = none
  get k ((j, v) ∷ m) = if eq_bytes j k then some v else get k m

  unfoldable pub insert : Bytes → V → BTreeMap V → BTreeMap V
  insert k v [] = (k, v) ∷ []
  insert k v ((j, w) ∷ m) =
      let rest = insert k v m in
      if lex_lt k j then (k, v) ∷ (j, w) ∷ m else if eq_bytes j k then (k, v) ∷ m else (j, w) ∷ rest

  unfoldable pub remove : Bytes → BTreeMap V → BTreeMap V
  remove k = keep (λ e. not (eq_bytes e.0 k))

  -- The entries in the range, in their order.
  unfoldable pub select : Range → BTreeMap V → BTreeMap V
  select r = keep (λ e. in_range r e.0)

  -- `range` panics when the start of the range lies behind its end.
  unfoldable pub range : Range → BTreeMap V → Result (BTreeMap V)
  range r m = if is_reversed r then panic else ok (select r m)

  abbrev pub Below : Bytes → BTreeMap V → Type 0
  Below k = All (λ e. lex_lt k e.0 ≡ true)

  -- The keys ascend strictly.
  abbrev pub IsAscending : BTreeMap V → Type 0
  IsAscending [] = Unit
  IsAscending (e ∷ m) = Below e.0 m × IsAscending m
