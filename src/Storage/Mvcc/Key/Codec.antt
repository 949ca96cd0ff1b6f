-- ===== src/Storage/Mvcc/Key/Codec.antt =====
-- The encoding of the engine keys of src/storage/mvcc.rs: round trip, order and prefixes.
use toydb.Prelude.{ℕ, ◌<◌, ◌≡◌, refl, ap, [], append-nil, arith, ltb}
use toydb.Error.{ok}
use toydb.Encoding.Bytes.{Bytes, lex_lt, eq_bytes_refl}
use toydb.Encoding.Keycode.{
  encode_bytes, serialize_u64, deserialize_u64, decode_next_bytes, deserialize, u64_mod,
}
use toydb.Encoding.Keycode.Strings.{decode_next_bytes-encode_bytes, lex_lt-encode_bytes}
use toydb.Encoding.Keycode.Integers.{deserialize_u64-serialize_u64, lex_lt-serialize_u64}
use toydb.Storage.Mvcc.Key.{
  Key, next_version, txn_active, txn_active_snapshot, txn_write, version, unversioned, encode,
  decode, deserialize_key, deserialize_variant, Fits,
}

u64_at_end : (v : ℕ) → v < u64_mod → deserialize_u64 (serialize_u64 v) ≡ ok (v, [])
u64_at_end v h = rw (append-nil (serialize_u64 v)) at (deserialize_u64-serialize_u64 v [] h)

bytes_at_end : (v : Bytes) → decode_next_bytes (encode_bytes v) ≡ ok (v, [])
bytes_at_end v = rw (append-nil (encode_bytes v)) at (decode_next_bytes-encode_bytes v [])

-- Every engine key whose version is a 64-bit integer comes back from its encoding.
pub decode-encode : (key : Key) → Fits key → decode (encode key) ≡ ok key
unfolding encode decode deserialize deserialize_key deserialize_variant
decode-encode next_version h = refl
decode-encode (txn_active v) h = rw (u64_at_end v h)
decode-encode (txn_active_snapshot v) h = rw (u64_at_end v h)
decode-encode (txn_write v key) h =
    rw (deserialize_u64-serialize_u64 v (encode_bytes key) h, bytes_at_end key)
decode-encode (version key v) h =
    rw (decode_next_bytes-encode_bytes key (serialize_u64 v), u64_at_end v h)
decode-encode (unversioned key) h = rw (bytes_at_end key)

pub encode_injective : (a b : Key) → Fits a → Fits b → encode a ≡ encode b → a ≡ b
encode_injective a b h k e = cc (decode-encode a h, decode-encode b k, ap decode e)

-- The versions of one key lie in the order of the versions.
pub lex_lt-encode_version :
    (key : Bytes) (a b : ℕ)
    → a < u64_mod
    → b < u64_mod
    → lex_lt (encode (version key a)) (encode (version key b)) ≡ ltb a b
unfolding encode lex_lt
lex_lt-encode_version key a b h k =
    rw
      (
        lex_lt-encode_bytes key key (serialize_u64 a) (serialize_u64 b),
        eq_bytes_refl key,
        ← append-nil (serialize_u64 a),
        ← append-nil (serialize_u64 b),
        lex_lt-serialize_u64 a b [] [] h k,
      )
      (ground arith)
