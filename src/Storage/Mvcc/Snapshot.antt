-- ===== src/Storage/Mvcc/Snapshot.antt =====
-- src/storage/mvcc.rs: the snapshot that `begin` takes holds every transaction that is active.
use toydb.Prelude.{
  ℕ, ◌+◌, ◌%◌, ◌<◌, ◌≤◌, ◌≡◌, ap, subst, ◌∙◌, sym, Bool-cases, true, false, inl, inr, some, List,
  [], ◌∷◌, arith, if◌then◌else◌, All,
}
use toydb.Error.{Result, ok, panic, ok_injective, >>=-eq-ok}
use toydb.Exec.{when}
use toydb.Encoding.Bytes.{Bytes, Range, lex_lt, lex_lt-nil, in_range, eq_bytes, eq_bytes→eq}
use toydb.Encoding.Keycode.{u64_mod, prefix_range, prefix_end, serialize_u64}
use toydb.Storage.BTreeMap
use toydb.Storage.BTreeMap.{range, select}
use toydb.Encoding.Bytes.{is_reversed}
use toydb.Storage.BTreeMap.Lookup.{get-select, get-insert_ne}
use toydb.Storage.Memory
use toydb.Storage.Memory.{Memory, set}
use toydb.Storage.Mvcc.Key.{txn_active, next_version, encode, encode_prefix, KeyPrefix}
use toydb.Storage.Mvcc.Key.Codec.{decode-encode}
use toydb.Storage.Mvcc.Isolation.{IsSnapshot, IsNext, txn_active-ne, begin-register, begin-next}
use toydb.Storage.Mvcc.{
  TransactionState, Versions, contains, insert, is_visible, Bincode, begin, register, scan_active,
  collect_active, active_version,
}

contains-insert_self : (v : ℕ) (vs : Versions) → contains v (insert v vs) ≡ true
unfolding contains insert
contains-insert_self v [] = ground arith
contains-insert_self v (w ∷ vs) = ground (arith, contains-insert_self v vs)

contains-insert : (v w : ℕ) (vs : Versions) → contains v vs ≡ true → contains v (insert w vs) ≡ true
unfolding contains insert
contains-insert v w [] h = cc
contains-insert v w (x ∷ vs) h = ground (arith, contains-insert v w vs)

collect_active-keeps :
    (v : ℕ) (vs r : Versions) (es : Memory)
    → collect_active vs es ≡ ok r
    → contains v vs ≡ true
    → contains v r ≡ true
unfolding collect_active
collect_active-keeps v vs r [] h c = rw (← ok_injective h) c
collect_active-keeps v vs r (e ∷ es) h c =
    let (w, _, q) = >>=-eq-ok (active_version e.0) _ h in
    collect_active-keeps v (insert w vs) r es q (contains-insert v w vs c)

-- Every record of an active transaction that was scanned is collected.
collect_active-contains :
    (v : ℕ) (k w : Bytes) (vs r : Versions) (es : Memory)
    → collect_active vs es ≡ ok r
    → active_version k ≡ ok v
    → BTreeMap.get k es ≡ some w
    → contains v r ≡ true
unfolding collect_active BTreeMap.get
collect_active-contains v k w vs r [] h d g = cc
collect_active-contains v k w vs r (e ∷ es) h d g =
    let (x, p, q) = >>=-eq-ok (active_version e.0) _ h in
    elim (Bool-cases (eq_bytes e.0 k)) [
      | inl same ↦ collect_active-keeps v (insert x vs) r es q (
          subst (λ (y : ℕ). contains v (insert y vs) ≡ true)
            (ok_injective (sym d ∙ ap active_version (sym (eq_bytes→eq e.0 k same)) ∙ p))
            (contains-insert_self v vs))
      | inr other ↦ collect_active-contains v k w (insert x vs) r es q d (ground arith)
    ]

in_range-txn_active :
    (v : ℕ)
    → in_range (prefix_range (encode_prefix KeyPrefix.txn_active)) (encode (txn_active v)) ≡ true
unfolding in_range prefix_range prefix_end encode_prefix encode lex_lt
in_range-txn_active v = ground (arith, lex_lt-nil (serialize_u64 v))

abbrev active_range : Range
active_range = prefix_range (encode_prefix KeyPrefix.txn_active)

scan_active-value :
    (m : Memory)
    → scan_active m
      ≡ ((if is_reversed active_range then panic else collect_active [] (select active_range m)), m)
unfolding scan_active Memory.scan_prefix Memory.scan range
scan_active-value m = ground arith

active_version-encode : (v : ℕ) → v < u64_mod → active_version (encode (txn_active v)) ≡ ok v
unfolding active_version
active_version-encode v h = rw (decode-encode (txn_active v) h, active_version)

-- Every transaction with an active record is in the set that `scan_active` returns.
scan_active-contains :
    (v : ℕ) (w : Bytes) (m : Memory) (r : Versions)
    → v < u64_mod
    → BTreeMap.get (encode (txn_active v)) m ≡ some w
    → (scan_active m).0 ≡ ok r
    → contains v r ≡ true
scan_active-contains v w m r h g e =
    collect_active-contains v (encode (txn_active v)) w [] r (select active_range m) collected
      (active_version-encode v h)
      (rw (get-select active_range (encode (txn_active v)) m, in_range-txn_active v) g)
  where
    collected : collect_active [] (select active_range m) ≡ ok r
    collected = ground (arith, ap (λ (p : Result Versions × Memory). p.0) (scan_active-value m))

module _ (bincode : Bincode) where
  open bincode use {versions}

  register-active :
      (v : ℕ) (m m' : Memory) (t : TransactionState)
      → register bincode v m ≡ (ok t, m')
      → ((scan_active m).0 ≡ ok t.active) × (t.version ≡ v) × (t.read_only ≡ false)
  unfolding register set when
  register-active v m m' t e = ground arith

  -- The keys other than the counter are read by `register` as they were before `begin`.
  counted_lookup :
      (v n : ℕ) (m : Memory)
      → BTreeMap.get
          (encode (txn_active v))
          (BTreeMap.insert (encode next_version) (versions.encode n) m)
        ≡ BTreeMap.get (encode (txn_active v)) m
  counted_lookup v n m =
      get-insert_ne (encode next_version) (encode (txn_active v)) _ m
        (λ e. txn_active-ne bincode v (sym e))

  abbrev IsActive : Memory → TransactionState → Type 0
  IsActive m u =
      (u.version < u64_mod)
      × ((w : Bytes) × (BTreeMap.get (encode (txn_active u.version)) m ≡ some w))

  contained-hidden :
      (t : TransactionState) (v : ℕ) → contains v t.active ≡ true → is_visible t v ≡ false
  unfolding is_visible
  contained-hidden t v h = rw h

  later-hidden :
      (t : TransactionState) (n v : ℕ)
      → t.version ≡ n
      → t.read_only ≡ false
      → n + 1 ≤ v
      → is_visible t v ≡ false
  unfolding is_visible
  later-hidden t n v e r h = ground arith

  others-hidden :
      (t : TransactionState) (n : ℕ) (m : Memory) (others : List TransactionState)
      → (scan_active (BTreeMap.insert (encode next_version) (versions.encode n) m)).0 ≡ ok t.active
      → All (IsActive m) others
      → All (λ u. (is_visible t u.version ≡ false) × (u.version < u64_mod)) others
  others-hidden t n m [] e h = tt
  others-hidden t n m (u ∷ others) e ((fits, (w, g)), h) = (
    (
      contained-hidden t u.version
          (scan_active-contains u.version w _ t.active fits (counted_lookup u.version n m ∙ g) e),
      fits,
    ),
    others-hidden t n m others e h,
  )

  counted : (n : ℕ) → n + 1 < u64_mod → (n + 1) % u64_mod ≡ n + 1
  counted n h = omega arith

  -- When a transaction begins, and each of the others that are open has its active record in the
  -- engine, then the new transaction gets the stored next version, or version 1 in an engine
  -- without one, and a snapshot to which the others are invisible, so that `snapshot_isolation`
  -- holds of it from there on. The version after it must fit in 64 bits.
  pub begin-IsSnapshot :
      (m m' : Memory) (others : List TransactionState) (t : TransactionState) (n : ℕ)
      → n + 1 < u64_mod
      → IsNext bincode m n
      → All (IsActive m) others
      → begin bincode m ≡ (ok t, m')
      → (t.version ≡ n) × IsSnapshot bincode t (record { store = m'; others = others })
  begin-IsSnapshot m m' others t n h stored active e =
      let fits : n < u64_mod = omega arith in
      let (v, next) = begin-next bincode m m' t n fits stored e in
      let (scanned, _, writer) =
        register-active n _ m' t (sym (begin-register bincode m n fits stored) ∙ e) in
      (
        v,
        record {
          next = n + 1;
          stored = next ∙ ap (λ (k : ℕ). some (versions.encode k)) (counted n h);
          fits = h;
          later = λ w. later-hidden t n w v writer;
          hidden = others-hidden t ((n + 1) % u64_mod) m others scanned active;
        },
      )
