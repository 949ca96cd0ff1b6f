-- ===== src/Storage/Mvcc/Key.antt =====
-- The engine keys of src/storage/mvcc.rs (`Key`, `KeyPrefix`) and their Keycode encoding. The
-- derived code writes the index of the variant, then the fields in their order.
pub mod Codec
use toydb.Prelude.{ℕ, zero, suc, ◌<◌, Option, none, some, List, [], ◌∷◌, ◌++◌}
use toydb.Error.{Result, ok, err, panic, invalid_data, ◌>>=◌}
use toydb.Encoding.Bytes.{Bytes}
use toydb.Encoding.Keycode.{
  Deserializer, encode_bytes, serialize_u64, deserialize_u64, decode_next_bytes, deserialize,
  u64_mod,
}

pub data Key : Type 0 where
  next_version : Key
  txn_active : ℕ → Key
  txn_active_snapshot : ℕ → Key
  txn_write : ℕ → Bytes → Key
  version : Bytes → ℕ → Key
  unversioned : Bytes → Key

unfoldable pub encode : Key → Bytes
encode next_version = 0 ∷ []
encode (txn_active v) = 1 ∷ serialize_u64 v
encode (txn_active_snapshot v) = 2 ∷ serialize_u64 v
encode (txn_write v key) = 3 ∷ serialize_u64 v ++ encode_bytes key
encode (version key v) = 4 ∷ encode_bytes key ++ serialize_u64 v
encode (unversioned key) = 5 ∷ encode_bytes key

-- The fields of the variant with the given index.
unfoldable pub deserialize_variant : ℕ → Deserializer Key
deserialize_variant zero input = ok (next_version, input)
deserialize_variant (suc zero) input = do (v, rest) ← deserialize_u64 input; ok (txn_active v, rest)
deserialize_variant (suc (suc zero)) input = do
  (v, rest) ← deserialize_u64 input
  ok (txn_active_snapshot v, rest)
deserialize_variant (suc (suc (suc zero))) input = do
  (v, rest) ← deserialize_u64 input
  (key, rest') ← decode_next_bytes rest
  ok (txn_write v key, rest')
deserialize_variant (suc (suc (suc (suc zero)))) input = do
  (key, rest) ← decode_next_bytes input
  (v, rest') ← deserialize_u64 rest
  ok (version key v, rest')
deserialize_variant (suc (suc (suc (suc (suc zero))))) input = do
  (key, rest) ← decode_next_bytes input
  ok (unversioned key, rest)
deserialize_variant _ input = err invalid_data

unfoldable pub deserialize_key : Deserializer Key
deserialize_key [] = err invalid_data
deserialize_key (index ∷ input) = deserialize_variant index input

unfoldable pub decode : Bytes → Result Key
decode = deserialize deserialize_key

pub data KeyPrefix : Type 0 where
  next_version : KeyPrefix
  txn_active : KeyPrefix
  txn_active_snapshot : KeyPrefix
  txn_write : ℕ → KeyPrefix
  version : Bytes → KeyPrefix
  unversioned : KeyPrefix

unfoldable pub encode_prefix : KeyPrefix → Bytes
encode_prefix KeyPrefix.next_version = 0 ∷ []
encode_prefix KeyPrefix.txn_active = 1 ∷ []
encode_prefix KeyPrefix.txn_active_snapshot = 2 ∷ []
encode_prefix (KeyPrefix.txn_write v) = 3 ∷ serialize_u64 v
encode_prefix (KeyPrefix.version key) = 4 ∷ encode_bytes key
encode_prefix KeyPrefix.unversioned = 5 ∷ []

-- The versions of a key are 64-bit integers.
abbrev pub Fits : Key → Type 0
Fits (txn_active v) = v < u64_mod
Fits (txn_active_snapshot v) = v < u64_mod
Fits (txn_write v _) = v < u64_mod
Fits (version _ v) = v < u64_mod
Fits _ = Unit
