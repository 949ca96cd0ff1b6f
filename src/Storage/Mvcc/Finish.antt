-- ===== src/Storage/Mvcc/Finish.antt =====
-- src/storage/mvcc.rs: what `commit` and `rollback` leave in the engine.
use toydb.Prelude.{
  ℕ, ◌<◌, ◌≡◌, ◌≢◌, refl, ap, subst, ◌∙◌, sym, Bool, Bool-cases, true, false, inl, inr, none, some,
  Option-cases, List, [], ◌∷◌, ◌++◌, arith, if◌then◌else◌,
}
use toydb.Error.{Result, ok, err, panic, ok_injective, >>=-eq-ok}
use toydb.Exec.{Exec, ◌>>=◌, continue, for_each}
use toydb.Encoding.Bytes.{
  Bytes, lex_lt_irrefl, included, in_range, eq_bytes, eq_bytes→eq, eq_bytes_refl,
}
use toydb.Encoding.Keycode.{u64_mod, prefix_range, serialize_u64, encode_bytes}
use toydb.Encoding.Keycode.Prefix.{in_range-extension, is_reversed-prefix_range}
use toydb.Storage.BTreeMap
use toydb.Storage.BTreeMap.{select, range}
use toydb.Storage.BTreeMap.Lookup.{get-select, get-remove}
use toydb.Storage.Frame.{other_keys}
use toydb.Storage.Memory
use toydb.Storage.Memory.{Memory, delete}
use toydb.Storage.Mvcc.Key.{Key, txn_write, txn_active, version, encode, encode_prefix, KeyPrefix}
use toydb.Storage.Mvcc.Key.Codec.{decode-encode, encode_injective}
use toydb.Storage.Mvcc.Footprint.{commit-Within, rollback-Within, WriteRecord}
use toydb.Storage.Mvcc.Unseen.{scanned-Outside}
use toydb.Storage.Mvcc.{TransactionState, commit, rollback, rollback_keys, written_key, keys_of}

-- Whether a key is among those to delete.
holds : Bytes → List Bytes → Bool
holds k [] = false
holds k (j ∷ ks) = if eq_bytes j k then true else holds k ks

for_each-delete-ok : (ks : List Bytes) (m : Memory) → (for_each ks delete m).0 ≡ ok tt
unfolding for_each delete
for_each-delete-ok [] m = refl
for_each-delete-ok (k ∷ ks) m = for_each-delete-ok ks (BTreeMap.remove k m)

get-for_each-delete :
    (k : Bytes) (ks : List Bytes) (m : Memory)
    → BTreeMap.get k (for_each ks delete m).1 ≡ (if holds k ks then none else BTreeMap.get k m)
unfolding for_each delete holds
get-for_each-delete k [] m = refl
get-for_each-delete k (j ∷ ks) m =
    get-for_each-delete k ks (BTreeMap.remove j m) ∙ rw (get-remove j k m) (ground arith)

holds-keys_of :
    (k w : Bytes) (es : Memory) → BTreeMap.get k es ≡ some w → holds k (keys_of es) ≡ true
unfolding holds BTreeMap.get
holds-keys_of k w [] h = cc
holds-keys_of k w (e ∷ es) h = ground (arith, holds-keys_of k w es)

abbrev records : ℕ → Memory → Memory
records v m = select (prefix_range (encode_prefix (KeyPrefix.txn_write v))) m

encode-write_record :
    (v : ℕ) (key : Bytes)
    → encode (txn_write v key) ≡ encode_prefix (KeyPrefix.txn_write v) ++ encode_bytes key
unfolding encode encode_prefix
encode-write_record v key = refl

records-get :
    (v : ℕ) (key : Bytes) (m : Memory)
    → BTreeMap.get (encode (txn_write v key)) (records v m)
      ≡ BTreeMap.get (encode (txn_write v key)) m
records-get v key m =
    get-select _ (encode (txn_write v key)) m
    ∙ rw (
      encode-write_record v key,
      in_range-extension (encode_prefix (KeyPrefix.txn_write v)) (encode_bytes key),
    )

commit-value :
    (u : TransactionState) (m : Memory)
    → u.read_only ≡ false
    → commit u m ≡ (
      ok tt,
      BTreeMap.remove
          (encode (txn_active u.version))
          (for_each (keys_of (records u.version m)) delete m).1,
    )
unfolding commit delete Memory.scan_prefix Memory.scan range
commit-value u m h = ground (
  arith,
  is_reversed-prefix_range (encode_prefix (KeyPrefix.txn_write u.version)),
  for_each-delete-ok (keys_of (records u.version m)) m,
)

-- A key that was there and is deleted, or that was not there, is not there afterwards.
gone :
    (v : ℕ) (k : Bytes) (ks : List Bytes) (m : Memory)
    → ((w : Bytes) → BTreeMap.get k m ≡ some w → holds k ks ≡ true)
    → BTreeMap.get k (BTreeMap.remove (encode (txn_active v)) (for_each ks delete m).1) ≡ none
gone v k ks m f = elim (Option-cases (BTreeMap.get k m)) [
  | inl e ↦ rw (get-remove _ k _, get-for_each-delete k ks m, e) (ground arith)
  | inr (w, e) ↦ rw (get-remove _ k _, get-for_each-delete k ks m, f w e) (ground arith)
]

active_gone :
    (v : ℕ) (m : Memory)
    → BTreeMap.get (encode (txn_active v)) (BTreeMap.remove (encode (txn_active v)) m) ≡ none
active_gone v m = rw (
  get-remove (encode (txn_active v)) (encode (txn_active v)) m,
  eq_bytes_refl (encode (txn_active v)),
)

in_own_range : (q : Bytes) → in_range (included q, included q) q ≡ true
unfolding in_range
in_own_range q = rw (lex_lt_irrefl q)

scanned-ne_version : (v w : ℕ) (key k : Bytes) → WriteRecord v k → k ≢ encode (version key w)
unfolding encode
scanned-ne_version v w key k r e =
    let q = encode_bytes key ++ serialize_u64 w in
    cc (rw e at (scanned-Outside v k r q q), in_own_range (4 ∷ q))

active-ne_version : (v w : ℕ) (key : Bytes) → encode (txn_active v) ≢ encode (version key w)
unfolding encode
active-ne_version v w key e = ground arith

-- A commit succeeds; it deletes the active record and every write record of the transaction, and
-- leaves every version of every key as it was.
pub commit_lem :
    (u : TransactionState) (m : Memory)
    → u.read_only ≡ false
    → ((commit u m).0 ≡ ok tt)
      × (BTreeMap.get (encode (txn_active u.version)) (commit u m).1 ≡ none)
      × ((key : Bytes) → BTreeMap.get (encode (txn_write u.version key)) (commit u m).1 ≡ none)
      × ((key : Bytes) (v : ℕ)
          → BTreeMap.get (encode (version key v)) (commit u m).1
            ≡ BTreeMap.get (encode (version key v)) m)
commit_lem u m h = (
  ap (λ (p : Result (Unit {0}) × Memory). p.0) (commit-value u m h),
  rw (commit-value u m h) (active_gone u.version _),
  (λ key. rw (commit-value u m h) (
      gone u.version _ (keys_of (records u.version m)) m
        (λ w e. holds-keys_of _ w (records u.version m) (records-get u.version key m ∙ e)))),
  (λ key v. sym (
      (commit-Within (other_keys (encode (version key v))) u
          (λ k. scanned-ne_version u.version v key k) (active-ne_version u.version v key)).at
        m)),
)

rollback_keys-holds :
    (v : ℕ) (k w key : Bytes) (es : Memory) (ks : List Bytes)
    → rollback_keys v es ≡ ok ks
    → BTreeMap.get k es ≡ some w
    → written_key k ≡ ok key
    → (holds k ks ≡ true) × (holds (encode (version key v)) ks ≡ true)
unfolding rollback_keys holds BTreeMap.get
rollback_keys-holds v k w key [] ks h g d = cc
rollback_keys-holds v k w key (e ∷ es) ks h g d =
    let (user_key, p, q) = >>=-eq-ok (written_key e.0) _ h in
    let (rest, r, q') = >>=-eq-ok (rollback_keys v es) _ q in
    subst (λ (l : List Bytes). (holds k l ≡ true) × (holds (encode (version key v)) l ≡ true))
      (ok_injective q')
      (elim (Bool-cases (eq_bytes e.0 k)) [
        | inl same ↦ (
          ground arith,
          rw (ok_injective (sym p ∙ ap written_key (eq_bytes→eq e.0 k same) ∙ d), eq_bytes_refl),
        )
        | inr other ↦
            let (i, j) = rollback_keys-holds v k w key es rest r (ground arith) d in
            (ground arith, ground arith)
      ])

finish : ℕ → List Bytes → Exec Memory (Unit {0})
finish v keys = ◌>>=◌ (for_each keys delete) (λ _. delete (encode (txn_active v)))

rollback-value :
    (u : TransactionState) (m : Memory)
    → u.read_only ≡ false
    → rollback u m ≡ continue (rollback_keys u.version (records u.version m)) (finish u.version) m
unfolding rollback Memory.scan_prefix Memory.scan range finish
rollback-value u m h =
    ground (arith, is_reversed-prefix_range (encode_prefix (KeyPrefix.txn_write u.version)))

rollback-keys :
    (v : ℕ) (m : Memory) (r : Result (List Bytes))
    → (continue r (finish v) m).0 ≡ ok tt
    → (ks : List Bytes) × (r ≡ ok ks)
      × ((continue r (finish v) m).1
          ≡ BTreeMap.remove (encode (txn_active v)) (for_each ks delete m).1)
unfolding finish delete
rollback-keys v m (ok ks) h = (ks, refl, ground (arith, for_each-delete-ok ks m))
rollback-keys v m (err e) h = cc
rollback-keys v m panic h = cc

written_key-encode :
    (v : ℕ) (key : Bytes) → v < u64_mod → written_key (encode (txn_write v key)) ≡ ok key
unfolding written_key
written_key-encode v key h = rw (decode-encode (txn_write v key) h, written_key)

number : Key → ℕ
number (Key.version _ x) = x
number _ = 0

version-ne :
    (key key' : Bytes) (v w : ℕ)
    → v < u64_mod
    → w < u64_mod
    → v ≢ w
    → encode (version key' w) ≢ encode (version key v)
unfolding number
version-ne key key' v w h k n e =
    n (ap number (encode_injective (version key v) (version key' w) h k (sym e)))

-- A rollback that succeeds deletes the active record and every write record of the transaction, and
-- the version of every key that has a write record. Versions of other transactions stay.
pub rollback_lem :
    (u : TransactionState) (m : Memory)
    → u.read_only ≡ false
    → u.version < u64_mod
    → (rollback u m).0 ≡ ok tt
    → (BTreeMap.get (encode (txn_active u.version)) (rollback u m).1 ≡ none)
      × ((key : Bytes) → BTreeMap.get (encode (txn_write u.version key)) (rollback u m).1 ≡ none)
      × ((key w : Bytes)
          → BTreeMap.get (encode (txn_write u.version key)) m ≡ some w
          → BTreeMap.get (encode (version key u.version)) (rollback u m).1 ≡ none)
      × ((key : Bytes) (v : ℕ)
          → v < u64_mod
          → v ≢ u.version
          → BTreeMap.get (encode (version key v)) (rollback u m).1
            ≡ BTreeMap.get (encode (version key v)) m)
rollback_lem u m h fits done =
    let value = rollback-value u m h in
    let (ks, collected, left) =
      rollback-keys u.version m (rollback_keys u.version (records u.version m))
        (ap (λ (p : Result (Unit {0}) × Memory). p.0) (sym value) ∙ done) in
    let after = ap (λ (p : Result (Unit {0}) × Memory). p.1) value ∙ left in
    let deleted =
      λ (key w : Bytes) (e : BTreeMap.get (encode (txn_write u.version key)) m ≡ some w).
        rollback_keys-holds u.version _ w key (records u.version m) ks collected
          (records-get u.version key m ∙ e) (written_key-encode u.version key fits) in
    (
      rw after (active_gone u.version _),
      (λ key. rw after (gone u.version _ ks m (λ w e. (deleted key w e).0))),
      (λ key w e. rw after (gone u.version _ ks m (λ _ _. (deleted key w e).1))),
      (λ key v small other. sym (
          (rollback-Within (other_keys (encode (version key v))) u
              (λ k. scanned-ne_version u.version v key k)
              (λ key'. version-ne key key' v u.version small fits other)
              (active-ne_version u.version v key)).at
            m)),
    )
