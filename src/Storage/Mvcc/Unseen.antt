-- ===== src/Storage/Mvcc/Unseen.antt =====
-- src/storage/mvcc.rs: engine keys that a transaction does not see, and changes to the engine that
-- it does not notice.
use toydb.Prelude.{
  ℕ, ◌≡◌, refl, ◌∙◌, true, false, ◌⊎◌, inl, inr, ◌∷◌, reverse, arith, if◌then◌else◌, ◌<◌,
}
use toydb.Error.{Result, ok, err, panic}
use toydb.Error
use toydb.Encoding.Bytes.{Bytes, included, lex_lt, in_range}
use toydb.Encoding.Keycode.{prefix_range, serialize_u64, u64_mod}
use toydb.Encoding.Keycode.Prefix.{in_range-lt}
use toydb.Storage.BTreeMap
use toydb.Storage.BTreeMap.{range, select}
use toydb.Encoding.Bytes.{is_reversed}
use toydb.Storage.BTreeMap.Hidden.{
  SameExcept, done, both, left, right, SameExcept-select, SameExcept-reverse, SameExcept-insert,
  SameExcept-remove,
}
use toydb.Storage.Frame.{Frame}
use toydb.Storage.Memory
use toydb.Storage.Memory.{Memory, set, delete}
use toydb.Storage.Mvcc.Key.{
  version, txn_active, txn_active_snapshot, txn_write, next_version, unversioned, encode, decode,
  encode_prefix, KeyPrefix,
}
use toydb.Storage.Mvcc.Key.Codec.{decode-encode}
use toydb.Storage.Mvcc.{
  TransactionState, is_visible, first_visible, Bincode, get, versions_between, decode_found,
}

-- Not in the range of the versions of any key.
abbrev pub Outside : Bytes → Type 0
Outside k = (q r : Bytes) → in_range (included (4 ∷ q), included (4 ∷ r)) k ≡ false

-- A version that the transaction may not read.
abbrev pub IsHidden : TransactionState → Bytes → Type 0
IsHidden txn k =
    (key : Bytes) × (v : ℕ) × (decode k ≡ ok (version key v)) × (is_visible txn v ≡ false)

abbrev pub Ignored : TransactionState → Bytes → Type 0
Ignored txn k = Outside k ⊎ IsHidden txn k

-- Every version of the other transaction is hidden, whatever the key.
version-IsHidden :
    (txn : TransactionState) (key : Bytes) (v : ℕ)
    → v < u64_mod
    → is_visible txn v ≡ false
    → IsHidden txn (encode (version key v))
version-IsHidden txn key v h g = (key, v, decode-encode (version key v) h, g)

pub version-Ignored :
    (txn : TransactionState) (key : Bytes) (v : ℕ)
    → v < u64_mod
    → is_visible txn v ≡ false
    → Ignored txn (encode (version key v))
version-Ignored txn key v h g = inr (version-IsHidden txn key v h g)

next_version-Outside : Outside (encode next_version)
unfolding encode in_range lex_lt
next_version-Outside q r = refl

pub next_version-Ignored : (txn : TransactionState) → Ignored txn (encode next_version)
next_version-Ignored txn = inl next_version-Outside

txn_active-Outside : (v : ℕ) → Outside (encode (txn_active v))
unfolding encode in_range lex_lt
txn_active-Outside v q r = refl

pub txn_active-Ignored : (txn : TransactionState) (v : ℕ) → Ignored txn (encode (txn_active v))
txn_active-Ignored txn v = inl (txn_active-Outside v)

txn_active_snapshot-Outside : (v : ℕ) → Outside (encode (txn_active_snapshot v))
unfolding encode in_range lex_lt
txn_active_snapshot-Outside v q r = refl

pub txn_active_snapshot-Ignored :
    (txn : TransactionState) (v : ℕ) → Ignored txn (encode (txn_active_snapshot v))
txn_active_snapshot-Ignored txn v = inl (txn_active_snapshot-Outside v)

txn_write-Outside : (v : ℕ) (key : Bytes) → Outside (encode (txn_write v key))
unfolding encode in_range lex_lt
txn_write-Outside v key q r = refl

pub txn_write-Ignored :
    (txn : TransactionState) (v : ℕ) (key : Bytes) → Ignored txn (encode (txn_write v key))
txn_write-Ignored txn v key = inl (txn_write-Outside v key)

unversioned-Outside : (key : Bytes) → Outside (encode (unversioned key))
unfolding encode in_range lex_lt
unversioned-Outside key q r = refl

pub unversioned-Ignored :
    (txn : TransactionState) (key : Bytes) → Ignored txn (encode (unversioned key))
unversioned-Ignored txn key = inl (unversioned-Outside key)

-- The write records that a scan by their prefix returns are no versions.
pub scanned-Outside :
    (v : ℕ) (k : Bytes)
    → in_range (prefix_range (encode_prefix (KeyPrefix.txn_write v))) k ≡ true
    → Outside k
unfolding encode_prefix in_range
scanned-Outside v k h q r = ground (arith, in_range-lt 3 (serialize_u64 v) k q (omega arith) h)

module _ (txn : TransactionState) where
  first_visible-SameExcept :
      {m n : Memory} → SameExcept (IsHidden txn) m n → first_visible txn m ≡ first_visible txn n
  unfolding first_visible
  first_visible-SameExcept done = refl
  first_visible-SameExcept (both e s) = ground (arith, first_visible-SameExcept s)
  first_visible-SameExcept (left e (key, v, d, h) s) =
      rw (d, first_visible, h) (first_visible-SameExcept s)
  first_visible-SameExcept (right e (key, v, d, h) s) =
      rw (d, first_visible, h) (first_visible-SameExcept s)

  Ignored-in_range :
      (lo hi k : Bytes)
      → Ignored txn k
      → (in_range (included (4 ∷ lo), included (4 ∷ hi)) k ≡ false) ⊎ IsHidden txn k
  Ignored-in_range lo hi k (inl out) = inl (out lo hi)
  Ignored-in_range lo hi k (inr h) = inr h

  first_visible-Ignored :
      (key : Bytes) (a b : ℕ) {m n : Memory}
      → SameExcept (Ignored txn) m n
      → first_visible txn (reverse (select (versions_between key a b) m))
        ≡ first_visible txn (reverse (select (versions_between key a b) n))
  unfolding encode versions_between
  first_visible-Ignored key a b s = first_visible-SameExcept (
      SameExcept-reverse
        (SameExcept-select (Ignored txn) (IsHidden txn) _ (Ignored-in_range _ _) s))

module _ (bincode : Bincode) (txn : TransactionState) where
  -- The result of `get`, with the scan in place.
  pub get-value :
      (key : Bytes) (m : Memory)
      → (get bincode txn key m).0 ≡ (
          if is_reversed (versions_between key 0 txn.version)
          then panic
          else Error.◌>>=◌
              (first_visible txn (reverse (select (versions_between key 0 txn.version) m)))
              (decode_found bincode))
  unfolding get Memory.scan range
  get-value key m = ground arith

  -- No read of the transaction tells the two engines apart.
  abbrev pub Unseen : Memory → Memory → Type 0
  Unseen m n = (key : Bytes) → (get bincode txn key m).0 ≡ (get bincode txn key n).0

  Unseen-SameExcept : {m n : Memory} → SameExcept (Ignored txn) m n → Unseen m n
  Unseen-SameExcept {m} {n} s key =
      rw (get-value key m, get-value key n, first_visible-Ignored txn key 0 txn.version s)

  pub Unseen-insert : (k v : Bytes) (m : Memory) → Ignored txn k → Unseen m (BTreeMap.insert k v m)
  Unseen-insert k v m h = Unseen-SameExcept (SameExcept-insert k v m h)

  pub Unseen-remove : (k : Bytes) (m : Memory) → Ignored txn k → Unseen m (BTreeMap.remove k m)
  Unseen-remove k m h = Unseen-SameExcept (SameExcept-remove k m h)

-- The frame of the keys that a transaction ignores: what it reads stays.
abbrev pub unseen_frame : Bincode → TransactionState → Frame
unseen_frame bincode txn = record {
  May = Ignored txn;
  Same = Unseen bincode txn;
  same_refl = λ m key. refl;
  same_trans = λ l m n p q key. p key ∙ q key;
  same_insert = Unseen-insert bincode txn;
  same_remove = Unseen-remove bincode txn;
}
