-- ===== src/Encoding/Keycode/Integers.antt =====
-- The big-endian encoding of unsigned integers (`serialize_u64`, `deserialize_u64`).
use native.Mathlib.Nat.{pow-suc}
use toydb.Prelude.{
  ℕ, zero, suc, ◌+◌, ◌*◌, ◌/◌, ◌%◌, ◌^◌, ◌<◌, ◌≡◌, refl, ap, [], ◌∷◌, ◌++◌, append_assoc, arith,
  ltb, ◌==◌, if◌then◌else◌, length, length-append,
}
use toydb.Error.{ok}
use toydb.Encoding.Bytes.{Bytes, lex_lt}
use toydb.Encoding.Keycode.{
  to_be_bytes, serialize_u64, u64_mod, take_bytes, from_be_bytes, deserialize_u64,
}

pub length-to_be_bytes : (n v : ℕ) → length (to_be_bytes n v) ≡ n
unfolding to_be_bytes
length-to_be_bytes zero v = refl
length-to_be_bytes (suc n) v = omega (
  arith,
  length-append (to_be_bytes n (v / 256)) ((v % 256) ∷ []),
  length-to_be_bytes n (v / 256),
)

take_bytes-append :
    (n : ℕ) (xs rest : Bytes) → length xs ≡ n → take_bytes n (xs ++ rest) ≡ ok (xs, rest)
unfolding take_bytes
take_bytes-append zero [] rest h = refl
take_bytes-append zero (x ∷ xs) rest h = absurd (omega arith)
take_bytes-append (suc n) [] rest h = absurd (omega arith)
take_bytes-append (suc n) (x ∷ xs) rest h = rw (take_bytes-append n xs rest (omega arith))

from_be_bytes-append :
    (acc b : ℕ) (xs : Bytes) → from_be_bytes acc (xs ++ b ∷ []) ≡ from_be_bytes acc xs * 256 + b
unfolding from_be_bytes
from_be_bytes-append acc b [] = refl
from_be_bytes-append acc b (x ∷ xs) = from_be_bytes-append (acc * 256 + x) b xs

pub from_be_bytes-to_be_bytes : (n v : ℕ) → v < 256 ^ n → from_be_bytes 0 (to_be_bytes n v) ≡ v
unfolding to_be_bytes
from_be_bytes-to_be_bytes zero v h = unfold from_be_bytes in omega arith
from_be_bytes-to_be_bytes (suc n) v h =
    rw (from_be_bytes-append 0 (v % 256) (to_be_bytes n (v / 256)))
      (omega (arith, from_be_bytes-to_be_bytes n (v / 256) (omega (arith, pow-suc 256 n))))

-- A 64-bit integer comes back from its encoding, with what follows it left over.
pub deserialize_u64-serialize_u64 :
    (v : ℕ) (rest : Bytes) → v < u64_mod → deserialize_u64 (serialize_u64 v ++ rest) ≡ ok (v, rest)
unfolding deserialize_u64 serialize_u64
deserialize_u64-serialize_u64 v rest h =
    rw (take_bytes-append 8 (to_be_bytes 8 v) rest (length-to_be_bytes 8 v))
      (ap (λ (n : ℕ). ok (n, rest)) (from_be_bytes-to_be_bytes 8 v h))

lex_lt-to_be_bytes :
    (n a b : ℕ) (r s : Bytes)
    → a < 256 ^ n
    → b < 256 ^ n
    → lex_lt (to_be_bytes n a ++ r) (to_be_bytes n b ++ s)
      ≡ (if a == b then lex_lt r s else ltb a b)
unfolding to_be_bytes
lex_lt-to_be_bytes zero a b r s h k = ground arith
lex_lt-to_be_bytes (suc n) a b r s h k =
    rw
      (
        append_assoc (to_be_bytes n (a / 256)) ((a % 256) ∷ []) r,
        append_assoc (to_be_bytes n (b / 256)) ((b % 256) ∷ []) s,
        lex_lt-to_be_bytes n (a / 256) (b / 256) ((a % 256) ∷ r) ((b % 256) ∷ s)
            (omega (arith, pow-suc 256 n)) (omega (arith, pow-suc 256 n)),
      )
      (unfold lex_lt in ground arith)

-- Two encoded 64-bit integers compare as the integers do, and what follows them decides only when
-- the integers are equal.
pub lex_lt-serialize_u64 :
    (a b : ℕ) (r s : Bytes)
    → a < u64_mod
    → b < u64_mod
    → lex_lt (serialize_u64 a ++ r) (serialize_u64 b ++ s)
      ≡ (if a == b then lex_lt r s else ltb a b)
unfolding serialize_u64
lex_lt-serialize_u64 a b r s h k = lex_lt-to_be_bytes 8 a b r s h k
