-- ===== src/Storage/Mvcc/Tests.antt =====
-- Runs and instances of src/storage/mvcc.rs over a simple encoding of values.
use toydb.Prelude.{
  ℕ, zero, suc, ◌≡◌, refl, true, false, Option, none, some, [], ◌∷◌, arith, here, inl,
}
use toydb.Error.{Result, ok, err, invalid_data, serialization}
use toydb.Encoding.Bytes.{Bytes, lex_lt, eq_bytes, in_range, is_reversed}
use toydb.Encoding.Keycode.{
  esc_all, encode_bytes, decode_bytes, to_be_bytes, serialize_u64, take_bytes, from_be_bytes,
  deserialize_u64, decode_next_bytes, deserialize, prefix_range, prefix_end,
}
use toydb.Exec.{when, for_each}
use toydb.Storage.BTreeMap
use toydb.Storage.Memory
use toydb.Storage.Memory.{Memory}
use toydb.Storage.Mvcc.Key
use toydb.Storage.Mvcc.Key.{txn_active, txn_write, version, next_version, encode, decode}
use toydb.Storage.Mvcc.Key.Codec.{decode-encode}
use toydb.Storage.Mvcc.Isolation.{IsSnapshot, writes, stay, more, snapshot_isolation}
use toydb.Storage.Mvcc.Snapshot.{begin-IsSnapshot}
use toydb.Storage.Mvcc.Writes.{get-write_version, Atomic, write_version-Atomic}
use toydb.Storage.Mvcc.Finish.{commit_lem, rollback_lem}
use toydb.Storage.Mvcc.{
  TransactionState, Bincode, begin, get, write_version, commit, rollback, register, or_first,
  scan_active, collect_active, active_version, insert, contains, is_visible, first_visible,
  check_conflict, check_newest, first_or, versions_between, decode_found, rollback_keys,
  written_key,
}

-- A version is one element, a set is itself, and a value has a tag before it.
abbrev one : Bytes → Result ℕ
one (v ∷ []) = ok v
one _ = err invalid_data

abbrev pub tagged : Bytes → Result (Option Bytes)
tagged [] = err invalid_data
tagged (zero ∷ _) = ok none
tagged (suc _ ∷ v) = ok (some v)

abbrev pub tag : Option Bytes → Bytes
tag none = 0 ∷ []
tag (some v) = 1 ∷ v

pub tagged-tag : (v : Option Bytes) → Unit {0} → tagged (tag v) ≡ ok v
tagged-tag none h = refl
tagged-tag (some v) h = refl

abbrev pub plain : Bincode
plain = record {
  versions = record { encode = λ v. v ∷ []; decode = one; decode-encode = λ v h. refl };
  sets = record { encode = λ vs. vs; decode = ok; decode-encode = λ vs h. refl };
  values = record { encode = tag; decode = tagged; decode-encode = tagged-tag };
}

-- `f`, `o`
abbrev foo : Bytes
foo = 102 ∷ 0 ∷ []

-- Transaction 1 has begun on an empty engine.
abbrev txn_1 : TransactionState
txn_1 = record { version = 1; read_only = false; active = [] }

abbrev store_1 : Memory
store_1 = (encode next_version, 2 ∷ []) ∷ (encode (txn_active 1), []) ∷ []

abbrev txn_2 : TransactionState
txn_2 = record { version = 2; read_only = false; active = 1 ∷ [] }

-- The definitions that a run computes with.
runs : Unit {0}
unfolding begin register scan_active collect_active active_version or_first insert contains
    is_visible first_visible check_conflict check_newest first_or versions_between decode_found
    rollback_keys written_key get write_version commit rollback Memory.get Memory.set Memory.delete
    Memory.scan_prefix Memory.scan BTreeMap.get BTreeMap.insert BTreeMap.remove BTreeMap.range
    BTreeMap.select prefix_end prefix_range lex_lt eq_bytes in_range is_reversed encode decode
    Key.encode_prefix Key.deserialize_key Key.deserialize_variant serialize_u64 to_be_bytes
    from_be_bytes take_bytes deserialize_u64 esc_all encode_bytes decode_bytes decode_next_bytes
    deserialize when for_each
runs = tt

begin_first : begin plain [] ≡ (ok txn_1, store_1)
unfolding runs
begin_first = refl

abbrev store_2 : Memory
store_2 =
    (encode next_version, 3 ∷ [])
    ∷ (encode (txn_active 1), [])
    ∷ (encode (txn_active 2), [])
    ∷ (encode (Key.txn_active_snapshot 2), 1 ∷ [])
    ∷ []

begin_second : begin plain store_1 ≡ (ok txn_2, store_2)
unfolding runs
begin_second = refl

stored_next : BTreeMap.get (encode next_version) store_1 ≡ some (2 ∷ [])
unfolding runs
stored_next = refl

active_1 : BTreeMap.get (encode (txn_active 1)) store_1 ≡ some []
unfolding runs
active_1 = refl

-- The second transaction begins while the first is open.
begin-IsSnapshot_example :
    (txn_2.version ≡ 2) × IsSnapshot plain txn_2 (record { store = store_2; others = txn_1 ∷ [] })
begin-IsSnapshot_example =
    begin-IsSnapshot plain store_1 store_2 (txn_1 ∷ []) txn_2 2 (omega arith) (inl stored_next)
      ((omega arith, ([], active_1)), tt) begin_second

snapshot_isolation_example :
    (get plain txn_2 foo store_2).0
    ≡ (get plain txn_2 foo (write_version plain txn_1 foo (some (7 ∷ [])) store_2).1).0
snapshot_isolation_example =
    snapshot_isolation plain txn_2 (record { store = store_2; others = txn_1 ∷ [] }) _ foo
      begin-IsSnapshot_example.1 (more stay (writes _ txn_1 foo (some (7 ∷ [])) here))

store_3 : Memory
store_3 = (write_version plain txn_1 foo (some (7 ∷ [])) store_1).1

sees_itself : is_visible txn_1 1 ≡ true
unfolding runs
sees_itself = refl

write_succeeds : (write_version plain txn_1 foo (some (7 ∷ [])) store_1).0 ≡ ok tt
unfolding runs
write_succeeds = refl

ascending : BTreeMap.IsAscending store_1
unfolding runs
ascending = ((refl, tt), (tt, tt))

get-write_version_example : (get plain txn_1 foo store_3).0 ≡ ok (some (7 ∷ []))
unfolding store_3
get-write_version_example =
    get-write_version plain txn_1 foo (some (7 ∷ [])) store_1 (omega arith) sees_itself ascending
      write_succeeds

-- The second transaction may not write a key that the first one wrote after it began.
conflict :
    write_version plain txn_2 foo none (write_version plain txn_1 foo (some (7 ∷ [])) store_2).1
    ≡ (err serialization, (write_version plain txn_1 foo (some (7 ∷ [])) store_2).1)
unfolding runs
conflict = refl

commit_lem_example : (commit txn_1 store_3).0 ≡ ok tt
commit_lem_example = (commit_lem txn_1 store_3 refl).0

rollback_succeeds : (rollback txn_1 store_3).0 ≡ ok tt
unfolding runs store_3
rollback_succeeds = refl

written_foo : BTreeMap.get (encode (txn_write 1 foo)) store_3 ≡ some []
unfolding runs store_3
written_foo = refl

rollback_lem_example : BTreeMap.get (encode (version foo 1)) (rollback txn_1 store_3).1 ≡ none
rollback_lem_example =
    (rollback_lem txn_1 store_3 refl (omega arith) rollback_succeeds).2 foo [] written_foo

write_version-Atomic_example :
    Atomic plain txn_1 foo none store_1 (write_version plain txn_1 foo none store_1)
write_version-Atomic_example = write_version-Atomic plain txn_1 foo none store_1

decode-encode_example : decode (encode (version foo 3)) ≡ ok (version foo 3)
decode-encode_example = decode-encode (version foo 3) (omega arith)
