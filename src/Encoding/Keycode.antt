-- ===== src/Encoding/Keycode.antt =====
-- src/encoding/keycode.rs: byte strings, unsigned integers, enum variants and prefix ranges. The
-- derived `Serialize` code of a key calls these in the order of its fields.
pub mod Strings
pub mod Integers
pub mod Prefix
pub mod Signed
mod Tests
use toydb.Prelude.{
  ℕ, zero, suc, ◌+◌, ◌-◌, ◌*◌, ◌/◌, ◌%◌, ◌^◌, ◌≡◌, refl, Bool, true, false, Option, none, some,
  List, [], ◌∷◌, ◌++◌, arith, ltb, ◌==◌, if◌then◌else◌, length, take,
}
use toydb.Error.{Result, ok, err, invalid_data, ◌>>=◌}
use toydb.Encoding.Bytes.{Bytes, Range, included, excluded, unbounded}

-- `esc_all`, the loop of `encode_bytes` over the bytes that are left.
unfoldable pub esc_all : Bytes → Bytes
esc_all [] = []
esc_all (b ∷ v) = if b == 0 then 0 ∷ 255 ∷ esc_all v else b ∷ esc_all v

unfoldable pub encode_bytes : Bytes → Bytes
encode_bytes v = esc_all v ++ (0 ∷ 0 ∷ [])

pub data DecodeBytes : Type 0 where
  decoded : Bytes → Bytes → DecodeBytes
  invalid_escape unexpected_end : DecodeBytes

abbrev pub push : ℕ → DecodeBytes → DecodeBytes
push b (decoded v rest) = decoded (b ∷ v) rest
push b invalid_escape = invalid_escape
push b unexpected_end = unexpected_end

-- The source returns the number of bytes taken; here `decoded` holds the bytes that are left.
unfoldable pub decode_bytes : Bytes → DecodeBytes
decode_bytes [] = unexpected_end
decode_bytes (b ∷ []) = if b == 0 then invalid_escape else unexpected_end
decode_bytes (zero ∷ zero ∷ rest) = decoded [] rest
decode_bytes (zero ∷ suc n ∷ rest) = if n == 254 then push 0 (decode_bytes rest) else invalid_escape
decode_bytes (suc b ∷ c ∷ rest) = push (suc b) (decode_bytes (c ∷ rest))

-- The `n` low bytes of a number, the most significant first; `u64::to_be_bytes` is this at 8.
unfoldable pub to_be_bytes : ℕ → ℕ → Bytes
to_be_bytes zero v = []
to_be_bytes (suc n) v = to_be_bytes n (v / 256) ++ (v % 256) ∷ []

abbrev pub u64_mod : ℕ
u64_mod = 2 ^ 64

unfoldable pub serialize_u64 : ℕ → Bytes
serialize_u64 v = to_be_bytes 8 v

-- A deserializer takes the input and returns a value and the input that is left.
abbrev pub Deserializer : Type 0 → Type 0
Deserializer A = Bytes → Result (A × Bytes)

unfoldable pub take_bytes : ℕ → Deserializer Bytes
take_bytes zero input = ok ([], input)
take_bytes (suc n) [] = err invalid_data
take_bytes (suc n) (b ∷ input) = do (bs, rest) ← take_bytes n input; ok (b ∷ bs, rest)

-- `u64::from_be_bytes`
unfoldable pub from_be_bytes : ℕ → Bytes → ℕ
from_be_bytes acc [] = acc
from_be_bytes acc (b ∷ bs) = from_be_bytes (acc * 256 + b) bs

unfoldable pub deserialize_u64 : Deserializer ℕ
deserialize_u64 input = do (bs, rest) ← take_bytes 8 input; ok (from_be_bytes 0 bs, rest)

unfoldable pub decode_next_bytes : Deserializer Bytes
decode_next_bytes input = elim (decode_bytes input) [
  | decoded v rest ↦ ok (v, rest)
  | invalid_escape ↦ err invalid_data
  | unexpected_end ↦ err invalid_data
]

-- `deserialize`: bytes left behind the key are an error.
unfoldable pub deserialize : {A : Type 0} → Deserializer A → Bytes → Result A
deserialize d input = do (t, rest) ← d input; elim rest [ [] ↦ ok t | _ ∷ _ ↦ err invalid_data ]

-- `prefix[i]`, where the index is below the length.
abbrev pub byte_at : Bytes → ℕ → ℕ
byte_at [] i = 0
byte_at (b ∷ bs) zero = b
byte_at (b ∷ bs) (suc i) = byte_at bs i

-- The outer loop of `prefix_end`, at its index `i`; the inner loop copies `prefix[0..idx]`.
unfoldable pub prefix_end_from : Bytes → ℕ → Option Bytes
prefix_end_from prefix zero = none
prefix_end_from prefix (suc idx) =
    if byte_at prefix idx == 255
    then prefix_end_from prefix idx
    else some (take idx prefix ++ (byte_at prefix idx + 1) ∷ [])

unfoldable pub prefix_end : Bytes → Option Bytes
unfolding prefix_end_from
prefix_end prefix = prefix_end_from prefix (length prefix)

unfoldable pub prefix_range : Bytes → Range
prefix_range prefix = elim (prefix_end prefix) [
  | some e ↦ (included prefix, excluded e)
  | none ↦ (included prefix, unbounded)
]
