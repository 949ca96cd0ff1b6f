-- ===== src/Encoding/Keycode/Signed.antt =====
-- src/encoding/keycode.rs: signed integers, floating-point numbers as their bits, and booleans.
use toydb.Prelude.{
  ℕ, ◌+◌, ◌-◌, ◌<◌, ◌≡◌, refl, ap, ◌∙◌, Bool, true, false, [], ◌∷◌, ◌++◌, ltb, ◌==◌, if◌then◌else◌,
  arith, Bool-cases, inl, inr,
}
use toydb.Prelude.Int.{ℤ, pos, negsuc, ltℤ, eqℤ, fits_i64, i64_bound}
use toydb.Error.{ok, err, invalid_data, ◌>>=◌}
use toydb.Encoding.Bytes.{Bytes, lex_lt}
use toydb.Encoding.Keycode.{Deserializer, u64_mod, serialize_u64, deserialize_u64}
use toydb.Encoding.Keycode.Integers.{deserialize_u64-serialize_u64, lex_lt-serialize_u64}

-- `v as u64` and `k as i64`
unfoldable pub as_u64 : ℤ → ℕ
as_u64 (pos n) = n
as_u64 (negsuc n) = u64_mod - 1 - n

unfoldable pub as_i64 : ℕ → ℤ
as_i64 k = if ltb k i64_bound then pos k else negsuc (u64_mod - 1 - k)

-- `k ^ (1 << 63)` and `!k`
unfoldable pub flip_sign : ℕ → ℕ
flip_sign k = if ltb k i64_bound then k + i64_bound else k - i64_bound

unfoldable pub complement : ℕ → ℕ
complement k = u64_mod - 1 - k

unfoldable pub encode_i64_key : ℤ → ℕ
encode_i64_key v = flip_sign (as_u64 v)

unfoldable pub decode_i64_key : ℕ → ℤ
decode_i64_key k = as_i64 (flip_sign k)

-- A number is below 2 ^ 63 when its first bit, the sign, is not set.
unfoldable pub encode_f64_key : ℕ → ℕ
encode_f64_key bits = if ltb bits i64_bound then flip_sign bits else complement bits

unfoldable pub decode_f64_key : ℕ → ℕ
decode_f64_key key = if ltb key i64_bound then complement key else flip_sign key

unfoldable pub serialize_i64 : ℤ → Bytes
serialize_i64 v = serialize_u64 (encode_i64_key v)

unfoldable pub deserialize_i64 : Deserializer ℤ
deserialize_i64 input = do (key, rest) ← deserialize_u64 input; ok (decode_i64_key key, rest)

-- A float is given by its bits.
unfoldable pub serialize_f64 : ℕ → Bytes
serialize_f64 bits = serialize_u64 (encode_f64_key bits)

unfoldable pub deserialize_f64 : Deserializer ℕ
deserialize_f64 input = do (key, rest) ← deserialize_u64 input; ok (decode_f64_key key, rest)

unfoldable pub serialize_bool : Bool → Bytes
serialize_bool v = (if v then 1 else 0) ∷ []

unfoldable pub deserialize_bool : Deserializer Bool
deserialize_bool [] = err invalid_data
deserialize_bool (b ∷ rest) =
    if b == 0 then ok (false, rest) else if b == 1 then ok (true, rest) else err invalid_data

encode_i64_key-lt : (v : ℤ) → fits_i64 v ≡ true → encode_i64_key v < u64_mod
unfolding encode_i64_key flip_sign as_u64 fits_i64
encode_i64_key-lt (pos n) h = ground (arith, h)
encode_i64_key-lt (negsuc n) h = ground (arith, h)

as_u64-lt : (v : ℤ) → fits_i64 v ≡ true → as_u64 v < u64_mod
unfolding as_u64 fits_i64
as_u64-lt (pos n) h = ground (arith, h)
as_u64-lt (negsuc n) h = ground (arith, h)

flip_sign-flip_sign : (k : ℕ) → k < u64_mod → flip_sign (flip_sign k) ≡ k
unfolding flip_sign
flip_sign-flip_sign k h = ground (arith, h)

as_i64-as_u64 : (v : ℤ) → fits_i64 v ≡ true → as_i64 (as_u64 v) ≡ v
unfolding as_i64 as_u64 fits_i64
as_i64-as_u64 (pos n) h = ground (arith, h)
as_i64-as_u64 (negsuc n) h = ground (arith, h)

decode-encode_i64_key : (v : ℤ) → fits_i64 v ≡ true → decode_i64_key (encode_i64_key v) ≡ v
unfolding encode_i64_key decode_i64_key
decode-encode_i64_key v h =
    ap as_i64 (flip_sign-flip_sign (as_u64 v) (as_u64-lt v h)) ∙ as_i64-as_u64 v h

ltb-encode_i64_key :
    (a b : ℤ)
    → fits_i64 a ≡ true
    → fits_i64 b ≡ true
    → ltb (encode_i64_key a) (encode_i64_key b) ≡ ltℤ a b
unfolding encode_i64_key flip_sign as_u64 fits_i64 ltℤ
ltb-encode_i64_key (pos m) (pos n) h k = ground (arith, h, k)
ltb-encode_i64_key (pos m) (negsuc n) h k = ground (arith, h, k)
ltb-encode_i64_key (negsuc m) (pos n) h k = ground (arith, h, k)
ltb-encode_i64_key (negsuc m) (negsuc n) h k = ground (arith, h, k)

eq-encode_i64_key :
    (a b : ℤ)
    → fits_i64 a ≡ true
    → fits_i64 b ≡ true
    → (encode_i64_key a == encode_i64_key b) ≡ eqℤ a b
unfolding encode_i64_key flip_sign as_u64 fits_i64 eqℤ
eq-encode_i64_key (pos m) (pos n) h k = ground (arith, h, k)
eq-encode_i64_key (pos m) (negsuc n) h k = ground (arith, h, k)
eq-encode_i64_key (negsuc m) (pos n) h k = ground (arith, h, k)
eq-encode_i64_key (negsuc m) (negsuc n) h k = ground (arith, h, k)

-- A signed 64-bit integer comes back from its encoding, with what follows it left over.
pub deserialize_i64-serialize_i64 :
    (v : ℤ) (rest : Bytes)
    → fits_i64 v ≡ true
    → deserialize_i64 (serialize_i64 v ++ rest) ≡ ok (v, rest)
unfolding deserialize_i64 serialize_i64
deserialize_i64-serialize_i64 v rest h =
    rw (deserialize_u64-serialize_u64 (encode_i64_key v) rest (encode_i64_key-lt v h))
      (ap (λ (w : ℤ). ok (w, rest)) (decode-encode_i64_key v h))

-- Encoded signed 64-bit integers order as the integers do; what follows decides only between
-- equal integers.
pub lex_lt-serialize_i64 :
    (a b : ℤ) (r s : Bytes)
    → fits_i64 a ≡ true
    → fits_i64 b ≡ true
    → lex_lt (serialize_i64 a ++ r) (serialize_i64 b ++ s)
      ≡ (if eqℤ a b then lex_lt r s else ltℤ a b)
unfolding serialize_i64
lex_lt-serialize_i64 a b r s h k =
    lex_lt-serialize_u64 (encode_i64_key a) (encode_i64_key b) r s (encode_i64_key-lt a h)
      (encode_i64_key-lt b k)
    ∙ rw (eq-encode_i64_key a b h k, ltb-encode_i64_key a b h k) refl

-- The total order of IEEE 754 as an order of integers: by sign and magnitude, -0 below 0.
unfoldable pub total_order : ℕ → ℤ
total_order bits = if ltb bits i64_bound then pos bits else negsuc (bits - i64_bound)

encode_f64_key-lt : (bits : ℕ) → bits < u64_mod → encode_f64_key bits < u64_mod
unfolding encode_f64_key flip_sign complement
encode_f64_key-lt bits h = ground (arith, h)

decode-encode_f64_key : (bits : ℕ) → bits < u64_mod → decode_f64_key (encode_f64_key bits) ≡ bits
unfolding encode_f64_key decode_f64_key flip_sign complement
decode-encode_f64_key bits h = ground (arith, h)

total_order-low : (a : ℕ) → ltb a i64_bound ≡ true → total_order a ≡ pos a
unfolding total_order
total_order-low a h = ground (arith, h)

total_order-high : (a : ℕ) → ltb a i64_bound ≡ false → total_order a ≡ negsuc (a - i64_bound)
unfolding total_order
total_order-high a h = ground (arith, h)

ltb-encode_f64_key :
    (a b : ℕ)
    → a < u64_mod
    → b < u64_mod
    → ltb (encode_f64_key a) (encode_f64_key b) ≡ ltℤ (total_order a) (total_order b)
unfolding encode_f64_key flip_sign complement ltℤ
ltb-encode_f64_key a b h k = elim (Bool-cases (ltb a i64_bound)) [
  | inl e ↦ elim (Bool-cases (ltb b i64_bound)) [
    | inl f ↦ rw (total_order-low a e, total_order-low b f) (ground (arith, h, k, e, f))
    | inr f ↦ rw (total_order-low a e, total_order-high b f) (ground (arith, h, k, e, f))
  ]
  | inr e ↦ elim (Bool-cases (ltb b i64_bound)) [
    | inl f ↦ rw (total_order-high a e, total_order-low b f) (ground (arith, h, k, e, f))
    | inr f ↦ rw (total_order-high a e, total_order-high b f) (ground (arith, h, k, e, f))
  ]
]

eq-encode_f64_key :
    (a b : ℕ) → a < u64_mod → b < u64_mod → (encode_f64_key a == encode_f64_key b) ≡ (a == b)
unfolding encode_f64_key flip_sign complement
eq-encode_f64_key a b h k = ground (arith, h, k)

-- The bits of a float come back from its encoding, with what follows it left over.
pub deserialize_f64-serialize_f64 :
    (bits : ℕ) (rest : Bytes)
    → bits < u64_mod
    → deserialize_f64 (serialize_f64 bits ++ rest) ≡ ok (bits, rest)
unfolding deserialize_f64 serialize_f64
deserialize_f64-serialize_f64 bits rest h =
    rw (deserialize_u64-serialize_u64 (encode_f64_key bits) rest (encode_f64_key-lt bits h))
      (ap (λ (b : ℕ). ok (b, rest)) (decode-encode_f64_key bits h))

-- Encoded floats order by the total order of IEEE 754; what follows decides only between floats
-- with the same bits.
pub lex_lt-serialize_f64 :
    (a b : ℕ) (r s : Bytes)
    → a < u64_mod
    → b < u64_mod
    → lex_lt (serialize_f64 a ++ r) (serialize_f64 b ++ s)
      ≡ (if a == b then lex_lt r s else ltℤ (total_order a) (total_order b))
unfolding serialize_f64
lex_lt-serialize_f64 a b r s h k =
    lex_lt-serialize_u64 (encode_f64_key a) (encode_f64_key b) r s (encode_f64_key-lt a h)
      (encode_f64_key-lt b k)
    ∙ rw (eq-encode_f64_key a b h k, ltb-encode_f64_key a b h k) refl
