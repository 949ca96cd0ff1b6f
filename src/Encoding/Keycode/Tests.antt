-- ===== src/Encoding/Keycode/Tests.antt =====
-- Runs and instances of src/encoding/keycode.rs.
use toydb.Prelude.{◌≡◌, refl, true, some, [], ◌∷◌, ◌++◌, arith}
use toydb.Error.{ok}
use toydb.Encoding.Bytes.{lex_lt, eq_bytes, in_range, is_prefix}
use toydb.Encoding.Keycode.{
  esc_all, encode_bytes, decode_bytes, decoded, serialize_u64, deserialize_u64, to_be_bytes,
  prefix_end, prefix_range,
}
use toydb.Encoding.Keycode.Strings.{decode_bytes-encode_bytes, lex_lt-encode_bytes}
use toydb.Encoding.Keycode.Integers.{deserialize_u64-serialize_u64, lex_lt-serialize_u64}
use toydb.Encoding.Keycode.Prefix.{in_range-prefix_range}
use toydb.Encoding.Keycode.Signed.{
  serialize_i64, deserialize_i64, serialize_f64, deserialize_f64, deserialize_i64-serialize_i64,
  lex_lt-serialize_i64, deserialize_f64-serialize_f64, lex_lt-serialize_f64, total_order,
}
use toydb.Prelude.Int.{pos, negsuc, ltℤ, eqℤ, fits_i64}

-- The byte 0 is escaped, and the end is marked.
escapes : encode_bytes (102 ∷ 0 ∷ []) ≡ 102 ∷ 0 ∷ 255 ∷ 0 ∷ 0 ∷ []
unfolding encode_bytes esc_all
escapes = refl

carry : prefix_end (1 ∷ 255 ∷ []) ≡ some (2 ∷ [])
unfolding prefix_end
carry = refl

big_endian : serialize_u64 258 ≡ 0 ∷ 0 ∷ 0 ∷ 0 ∷ 0 ∷ 0 ∷ 1 ∷ 2 ∷ []
unfolding serialize_u64 to_be_bytes
big_endian = refl

decode_bytes-encode_bytes_example :
    decode_bytes (encode_bytes (102 ∷ 0 ∷ []) ++ 7 ∷ []) ≡ decoded (102 ∷ 0 ∷ []) (7 ∷ [])
decode_bytes-encode_bytes_example = decode_bytes-encode_bytes (102 ∷ 0 ∷ []) (7 ∷ [])

-- A string lies before its extension by the byte 0.
lex_lt-encode_bytes_example :
    lex_lt (encode_bytes (5 ∷ []) ++ 9 ∷ []) (encode_bytes (5 ∷ 0 ∷ []) ++ 1 ∷ []) ≡ true
unfolding lex_lt eq_bytes
lex_lt-encode_bytes_example = lex_lt-encode_bytes (5 ∷ []) (5 ∷ 0 ∷ []) (9 ∷ []) (1 ∷ [])

deserialize_u64-serialize_u64_example :
    deserialize_u64 (serialize_u64 258 ++ 7 ∷ []) ≡ ok (258, 7 ∷ [])
deserialize_u64-serialize_u64_example = deserialize_u64-serialize_u64 258 (7 ∷ []) (omega arith)

lex_lt-serialize_u64_example :
    lex_lt (serialize_u64 255 ++ 9 ∷ []) (serialize_u64 256 ++ 1 ∷ []) ≡ true
lex_lt-serialize_u64_example =
    lex_lt-serialize_u64 255 256 (9 ∷ []) (1 ∷ []) (omega arith) (omega arith)

in_range-prefix_range_example : in_range (prefix_range (1 ∷ 255 ∷ [])) (1 ∷ 255 ∷ 255 ∷ []) ≡ true
unfolding is_prefix
in_range-prefix_range_example =
    in_range-prefix_range (1 ∷ 255 ∷ []) (1 ∷ 255 ∷ 255 ∷ []) (omega arith) (omega arith)

deserialize_i64-serialize_i64_example :
    deserialize_i64 (serialize_i64 (negsuc 4) ++ 7 ∷ []) ≡ ok (negsuc 4, 7 ∷ [])
unfolding fits_i64
deserialize_i64-serialize_i64_example = deserialize_i64-serialize_i64 (negsuc 4) (7 ∷ []) refl

-- A negative number lies before a positive one.
lex_lt-serialize_i64_example :
    lex_lt (serialize_i64 (negsuc 4) ++ 9 ∷ []) (serialize_i64 (pos 3) ++ 1 ∷ []) ≡ true
unfolding fits_i64 ltℤ eqℤ
lex_lt-serialize_i64_example = lex_lt-serialize_i64 (negsuc 4) (pos 3) (9 ∷ []) (1 ∷ []) refl refl

-- -1.0
deserialize_f64-serialize_f64_example :
    deserialize_f64 (serialize_f64 13830554455654793216 ++ 7 ∷ [])
    ≡ ok (13830554455654793216, 7 ∷ [])
deserialize_f64-serialize_f64_example =
    deserialize_f64-serialize_f64 13830554455654793216 (7 ∷ []) (omega arith)

-- -1.0 lies before 1.0.
lex_lt-serialize_f64_example :
    lex_lt (serialize_f64 13830554455654793216 ++ []) (serialize_f64 4607182418800017408 ++ [])
    ≡ true
unfolding total_order ltℤ
lex_lt-serialize_f64_example =
    lex_lt-serialize_f64 13830554455654793216 4607182418800017408 [] [] (omega arith) (omega arith)
