-- ===== src/Storage/Mvcc.antt =====
-- src/storage/mvcc.rs: transactions over an engine, each on its own snapshot. The engine behind the
-- mutex is the state of every operation; a transaction is its `TransactionState`.
pub mod Key
pub mod Unseen
pub mod Footprint
pub mod Isolation
pub mod Snapshot
pub mod Writes
pub mod Finish
pub mod Scan
pub mod Tests
use toydb.Prelude.{
  ℕ, ◌+◌, ◌-◌, ◌%◌, Bool, true, false, not, Option, none, some, List, [], ◌∷◌, reverse, ltb, leb,
  ◌==◌, if◌then◌else◌, length, last?, first?, ◌<◌, All,
}
use toydb.Error.{Result, ok, err, panic, invalid_data, invalid_input, read_only, serialization}
use toydb.Error
use toydb.Exec.{Exec, pure, raise, lift, reads, ◌>>=◌, ◌>>◌, for_each, when}
use toydb.Encoding.Bytes.{Bytes, Range, included}
use toydb.Encoding.Codec.{Codec}
use toydb.Encoding.Keycode.{u64_mod}
use toydb.Storage.BTreeMap
use toydb.Storage.Memory
use toydb.Storage.Memory.{Memory, set, delete}
use toydb.Storage.Mvcc.Key.{
  next_version, txn_active, txn_active_snapshot, txn_write, version, unversioned, encode, decode,
  KeyPrefix, encode_prefix,
}
use toydb.Storage.Mvcc.Key

-- `BTreeSet<Version>`, in ascending order.
abbrev pub Versions : Type 0
Versions = List ℕ

unfoldable pub contains : ℕ → Versions → Bool
contains v [] = false
contains v (w ∷ vs) = if w == v then true else contains v vs

unfoldable pub insert : ℕ → Versions → Versions
insert v [] = v ∷ []
insert v (w ∷ vs) =
    let rest = insert v vs in if ltb v w then v ∷ w ∷ vs else if w == v then w ∷ vs else w ∷ rest

pub record TransactionState : Type 0 where
  pub version : ℕ
  pub read_only : Bool
  pub active : Versions

unfoldable pub is_visible : TransactionState → ℕ → Bool
is_visible txn v =
    if contains v txn.active
    then false
    else if txn.read_only
    then ltb v txn.version
    else leb v txn.version

-- What the values of the keys are: versions, sets of versions, and user values or tombstones.
pub record Bincode : Type 0 where
  pub versions : Codec ℕ (λ v. v < u64_mod)
  pub sets : Codec Versions (All (λ v. v < u64_mod))
  pub values : Codec (Option Bytes) (λ _. Unit {0})

pub record Status : Type 0 where
  pub versions : ℕ
  pub active_txns : ℕ
  pub storage : Memory.Status

unfoldable pub or_first : Codec ℕ (λ v. v < u64_mod) → Option Bytes → Result ℕ
or_first c (some v) = c.decode v
or_first c none = ok 1

-- The number of versions that `status` reports; a stored version 0 would overflow.
unfoldable pub last_version : Codec ℕ (λ v. v < u64_mod) → Option Bytes → Result ℕ
last_version c none = ok 0
last_version c (some v) = elim (c.decode v) [
  | ok n ↦ if n == 0 then panic else ok (n - 1)
  | err e ↦ err e
  | panic ↦ panic
]

-- The version of an active record.
unfoldable pub active_version : Bytes → Result ℕ
active_version key = elim (decode key) [
  | ok (txn_active v) ↦ ok v
  | ok _ ↦ err invalid_data
  | err e ↦ err e
  | panic ↦ panic
]

-- The loop of `scan_active` over the scanned entries.
unfoldable pub collect_active : Versions → List (Bytes × Bytes) → Result Versions
collect_active active [] = ok active
collect_active active ((key, _) ∷ scan) =
    Error.◌>>=◌ (active_version key) λ v. collect_active (insert v active) scan

unfoldable pub scan_active : Exec Memory Versions
scan_active = do
  scan ← Memory.scan_prefix (encode_prefix KeyPrefix.txn_active)
  lift (collect_active [] scan)

-- The engine keys of the versions of a user key between two versions.
unfoldable pub versions_between : Bytes → ℕ → ℕ → Range
versions_between key a b = (included (encode (version key a)), included (encode (version key b)))

-- The loop of `get` over the versions of a key, the newest first: the first visible value.
unfoldable pub first_visible : TransactionState → List (Bytes × Bytes) → Result (Option Bytes)
first_visible txn [] = ok none
first_visible txn ((key, value) ∷ scan) = elim (decode key) [
  | ok (version _ v) ↦ if is_visible txn v then ok (some value) else first_visible txn scan
  | ok _ ↦ err invalid_data
  | err e ↦ err e
  | panic ↦ panic
]

-- The check of `write_version`: the newest version of the key in the range must be visible.
unfoldable pub check_newest : TransactionState → Option (Bytes × Bytes) → Result (Unit {0})
check_newest txn none = ok tt
check_newest txn (some (key, _)) = elim (decode key) [
  | ok (version _ v) ↦ if is_visible txn v then ok tt else err serialization
  | ok _ ↦ err invalid_data
  | err e ↦ err e
  | panic ↦ panic
]

unfoldable pub first_or : Versions → ℕ → ℕ
first_or [] v = v
first_or (w ∷ vs) v = w

unfoldable pub check_conflict : TransactionState → Bytes → Exec Memory (Unit {0})
check_conflict txn key = do
  scan ←
      Memory.scan
        (versions_between key (first_or txn.active ((txn.version + 1) % u64_mod)) (u64_mod - 1))
  lift (check_newest txn (last? scan))

-- The user key of a write record.
unfoldable pub written_key : Bytes → Result Bytes
written_key key = elim (decode key) [
  | ok (txn_write _ user_key) ↦ ok user_key
  | ok _ ↦ err invalid_data
  | err e ↦ err e
  | panic ↦ panic
]

-- The keys that `rollback` deletes: the versions that the transaction wrote, and its write records.
unfoldable pub rollback_keys : ℕ → List (Bytes × Bytes) → Result (List Bytes)
rollback_keys v [] = ok []
rollback_keys v ((key, _) ∷ scan) = Error.◌>>=◌ (written_key key) λ user_key.
    Error.◌>>=◌ (rollback_keys v scan) λ keys. ok (encode (version user_key v) ∷ key ∷ keys)

abbrev pub keys_of : List (Bytes × Bytes) → List Bytes
keys_of [] = []
keys_of ((key, _) ∷ scan) = key ∷ keys_of scan

unfoldable pub commit : TransactionState → Exec Memory (Unit {0})
commit txn = if txn.read_only then pure tt else do
  scan ← Memory.scan_prefix (encode_prefix (KeyPrefix.txn_write txn.version))
  for_each (keys_of scan) delete
  delete (encode (txn_active txn.version))

unfoldable pub rollback : TransactionState → Exec Memory (Unit {0})
rollback txn = if txn.read_only then pure tt else do
  scan ← Memory.scan_prefix (encode_prefix (KeyPrefix.txn_write txn.version))
  keys ← lift (rollback_keys txn.version scan)
  for_each keys delete
  delete (encode (txn_active txn.version))

unfoldable pub resume : TransactionState → Exec Memory TransactionState
resume txn = if txn.read_only then pure txn else do
  record_ ← Memory.get (encode (txn_active txn.version))
  elim record_ [ none ↦ raise invalid_input | some _ ↦ pure txn ]

module _ (bincode : Bincode) where
  open bincode use {versions, sets, values}

  -- The part of `begin` that follows the allocation of the version.
  unfoldable pub register : ℕ → Exec Memory TransactionState
  register v = do
    active ← scan_active
    when (not (length active == 0)) (set (encode (txn_active_snapshot v)) (sets.encode active))
    set (encode (txn_active v)) []
    pure (record { version = v; read_only = false; active = active })

  unfoldable pub begin : Exec Memory TransactionState
  begin = do
    stored ← Memory.get (encode next_version)
    v ← lift (or_first versions stored)
    set (encode next_version) (versions.encode ((v + 1) % u64_mod))
    register v

  unfoldable pub snapshot_or_empty : Option Bytes → Result Versions
  snapshot_or_empty none = ok []
  snapshot_or_empty (some value) = sets.decode value

  unfoldable pub begin_read_only : Option ℕ → Exec Memory TransactionState
  begin_read_only none = do
    stored ← Memory.get (encode next_version)
    v ← lift (or_first versions stored)
    active ← scan_active
    pure (record { version = v; read_only = true; active = active })
  begin_read_only (some as_of) = do
    stored ← Memory.get (encode next_version)
    v ← lift (or_first versions stored)
    if leb v as_of then raise invalid_input else do
      snapshot ← Memory.get (encode (txn_active_snapshot as_of))
      active ← lift (snapshot_or_empty snapshot)
      pure (record { version = as_of; read_only = true; active = active })

  unfoldable pub write_version : TransactionState → Bytes → Option Bytes → Exec Memory (Unit {0})
  write_version txn key value = if txn.read_only then raise read_only else do
    check_conflict txn key
    set (encode (txn_write txn.version key)) []
    set (encode (version key txn.version)) (values.encode value)

  -- `Transaction::set` and `Transaction::delete`
  unfoldable pub set_key : TransactionState → Bytes → Bytes → Exec Memory (Unit {0})
  set_key txn key value = write_version txn key (some value)

  unfoldable pub delete_key : TransactionState → Bytes → Exec Memory (Unit {0})
  delete_key txn key = write_version txn key none

  -- `bincode::deserialize` of the visible value, if there is one.
  unfoldable pub decode_found : Option Bytes → Result (Option Bytes)
  decode_found none = ok none
  decode_found (some value) = values.decode value

  unfoldable pub get : TransactionState → Bytes → Exec Memory (Option Bytes)
  get txn key = do
    scan ← Memory.scan (versions_between key 0 txn.version)
    found ← lift (first_visible txn (reverse scan))
    lift (decode_found found)

  unfoldable pub get_unversioned : Bytes → Exec Memory (Option Bytes)
  get_unversioned key = Memory.get (encode (unversioned key))

  unfoldable pub set_unversioned : Bytes → Bytes → Exec Memory (Unit {0})
  set_unversioned key value = set (encode (unversioned key)) value

  unfoldable pub status : Exec Memory Status
  status = do
    stored ← Memory.get (encode next_version)
    v ← lift (last_version versions stored)
    scan ← Memory.scan_prefix (encode_prefix KeyPrefix.txn_active)
    storage ← Memory.status
    pure (record { versions = v; active_txns = length scan; storage = storage })
