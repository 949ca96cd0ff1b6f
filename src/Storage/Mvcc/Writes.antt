-- ===== src/Storage/Mvcc/Writes.antt =====
-- src/storage/mvcc.rs: `write_version` changes nothing when it fails, and a transaction reads what
-- it wrote.
use toydb.Prelude.{
  ℕ, ◌<◌, ◌≡◌, ◌≢◌, ◌⊎◌, refl, ap, ◌∙◌, Bool, true, false, inl, inr, Option, some, [], reverse,
  arith, if◌then◌else◌, last?,
}
use toydb.Error.{Result, ok, err, panic, read_only}
use toydb.Exec.{Exec, raise, ◌>>=◌, continue}
use toydb.Encoding.Bytes.{Bytes}
use toydb.Encoding.Keycode.{u64_mod}
use toydb.Storage.BTreeMap
use toydb.Storage.BTreeMap.{select, range, IsAscending}
use toydb.Encoding.Bytes.{is_reversed}
use toydb.Storage.BTreeMap.Order.{insert-IsAscending}
use toydb.Storage.BTreeMap.Lookup.{last?-select-insert, reverse-last?}
use toydb.Storage.Memory
use toydb.Storage.Memory.{Memory, set}
use toydb.Storage.Mvcc.Key.{txn_write, version, encode}
use toydb.Storage.Mvcc.Key.Codec.{decode-encode, lex_lt-encode_version}
use toydb.Storage.Mvcc.Unseen.{get-value}
use toydb.Storage.Mvcc.{
  TransactionState, is_visible, Bincode, get, write_version, check_conflict, first_visible,
  versions_between, decode_found,
}

module _ (bincode : Bincode) (txn : TransactionState) where
  open bincode use {values}

  -- The engine after a write that passed its checks.
  abbrev pub written : Bytes → Option Bytes → Memory → Memory
  written key value m =
      BTreeMap.insert (encode (version key txn.version)) (values.encode value)
        (BTreeMap.insert (encode (txn_write txn.version key)) [] m)

  -- The write succeeded and stored the write record and the new version, or it failed and changed
  -- nothing.
  abbrev pub Atomic : Bytes → Option Bytes → Memory → Result (Unit {0}) × Memory → Type 0
  Atomic key value m w = ((w.0 ≡ ok tt) × (w.1 ≡ written key value m)) ⊎ ((w.0 ≢ ok tt) × (w.1 ≡ m))

  after_check :
      (key : Bytes) (value : Option Bytes) (m : Memory) (r : Result (Unit {0})) (s : Memory)
      → s ≡ m
      → Atomic key value m (
          continue r
            (λ _.
              ◌>>=◌
                (set (encode (txn_write txn.version key)) [])
                λ _. set (encode (version key txn.version)) (values.encode value))
            s)
  unfolding set
  after_check key value m (ok tt) s e = inl (refl, ap (written key value) e)
  after_check key value m (err x) s e = inr ((λ p. cc), e)
  after_check key value m panic s e = inr ((λ p. cc), e)

  unless_read_only :
      (key : Bytes) (value : Option Bytes) (m : Memory) (b : Bool) (body : Exec Memory (Unit {0}))
      → Atomic key value m (body m)
      → Atomic key value m ((if b then raise read_only else body) m)
  unless_read_only key value m true body h = inr ((λ p. cc), refl)
  unless_read_only key value m false body h = h

  check_conflict_state : (key : Bytes) (m : Memory) → (check_conflict txn key m).1 ≡ m
  unfolding check_conflict Memory.scan
  check_conflict_state key m = ground arith

  -- A write either succeeds, and then the engine has the write record and the new version and is
  -- otherwise as it was, or it fails, and then the engine is as it was.
  pub write_version-Atomic :
      (key : Bytes) (value : Option Bytes) (m : Memory)
      → Atomic key value m (write_version bincode txn key value m)
  unfolding write_version
  write_version-Atomic key value m = unless_read_only key value m txn.read_only _ (
      after_check key value m (check_conflict txn key m).0 (check_conflict txn key m).1
        (check_conflict_state key m))

  forward : (key : Bytes) (v : ℕ) → v < u64_mod → is_reversed (versions_between key 0 v) ≡ false
  unfolding is_reversed versions_between
  forward key v h = rw (lex_lt-encode_version key v 0 h (omega arith)) (ground arith)

  newest_first :
      (key w : Bytes) (es : Memory)
      → txn.version < u64_mod
      → is_visible txn txn.version ≡ true
      → last? es ≡ some (encode (version key txn.version), w)
      → first_visible txn (reverse es) ≡ ok (some w)
  unfolding first_visible
  newest_first key w es h own e =
      let (rest, q) = reverse-last? (encode (version key txn.version), w) es e in
      rw (q, first_visible, decode-encode (version key txn.version) h, own)

  read_back :
      (key : Bytes) (value : Option Bytes) (m : Memory)
      → txn.version < u64_mod
      → is_visible txn txn.version ≡ true
      → IsAscending m
      → (get bincode txn key
          (BTreeMap.insert (encode (version key txn.version)) (values.encode value) m)).0
        ≡ ok value
  unfolding versions_between decode_found
  read_back key value m h own a =
      get-value bincode txn key _
      ∙ rw
          (
            forward key txn.version h,
            newest_first key (values.encode value) _ h own (
                last?-select-insert (encode (version key 0)) _ (values.encode value) m
                  (lex_lt-encode_version key txn.version 0 h (omega arith) ∙ ground arith) a),
          )
          (values.decode-encode value tt)

  -- A transaction that sees its own version reads back what it wrote: the value that it set, or
  -- nothing after a deletion.
  pub get-write_version :
      (key : Bytes) (value : Option Bytes) (m : Memory)
      → txn.version < u64_mod
      → is_visible txn txn.version ≡ true
      → IsAscending m
      → (write_version bincode txn key value m).0 ≡ ok tt
      → (get bincode txn key (write_version bincode txn key value m).1).0 ≡ ok value
  get-write_version key value m h own a done = elim (write_version-Atomic key value m) [
    | inl (_, e) ↦ rw e (read_back key value _ h own (insert-IsAscending _ [] m a))
    | inr (n, _) ↦ absurd (n done)
  ]
