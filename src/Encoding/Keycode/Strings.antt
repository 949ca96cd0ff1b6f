-- ===== src/Encoding/Keycode/Strings.antt =====
-- The escaped, terminated encoding of byte strings (`encode_bytes`, `decode_bytes`).
use toydb.Prelude.{ℕ, zero, suc, ◌≡◌, refl, ap, [], ◌∷◌, ◌++◌, append_assoc, arith, if◌then◌else◌}
use toydb.Error.{ok}
use toydb.Encoding.Bytes.{Bytes, lex_lt, eq_bytes}
use toydb.Encoding.Keycode.{esc_all, encode_bytes, decoded, decode_bytes, decode_next_bytes, push}

esc_all-suc : (b : ℕ) (v : Bytes) → esc_all (suc b ∷ v) ≡ suc b ∷ esc_all v
unfolding esc_all
esc_all-suc b v = ground arith

escaped-decode : (v rest : Bytes) → decode_bytes (esc_all v ++ (0 ∷ 0 ∷ rest)) ≡ decoded v rest
unfolding esc_all decode_bytes
escaped-decode [] rest = refl
escaped-decode (zero ∷ v) rest = rw (escaped-decode v rest)
escaped-decode (suc b ∷ []) rest = rw (esc_all-suc b [])
escaped-decode (suc b ∷ zero ∷ v) rest =
    rw (esc_all-suc b (zero ∷ v)) (ap (push (suc b)) (escaped-decode (zero ∷ v) rest))
escaped-decode (suc b ∷ suc c ∷ v) rest =
    rw (esc_all-suc b (suc c ∷ v), esc_all-suc c v)
      (ap (push (suc b)) (rw (esc_all-suc c v) at (escaped-decode (suc c ∷ v) rest)))

encoded-append : (v rest : Bytes) → encode_bytes v ++ rest ≡ esc_all v ++ (0 ∷ 0 ∷ rest)
unfolding encode_bytes
encoded-append v rest = append_assoc (esc_all v) (0 ∷ 0 ∷ []) rest

-- Decoding an encoded byte string gives the string back and leaves what follows it, whatever the
-- string and whatever follows.
pub decode_bytes-encode_bytes :
    (v rest : Bytes) → decode_bytes (encode_bytes v ++ rest) ≡ decoded v rest
decode_bytes-encode_bytes v rest = rw encoded-append (escaped-decode v rest)

pub decode_next_bytes-encode_bytes :
    (v rest : Bytes) → decode_next_bytes (encode_bytes v ++ rest) ≡ ok (v, rest)
unfolding decode_next_bytes
decode_next_bytes-encode_bytes v rest = rw (decode_bytes-encode_bytes v rest, decode_next_bytes)

lex_lt-escaped :
    (a b r s : Bytes)
    → lex_lt (esc_all a ++ (0 ∷ 0 ∷ r)) (esc_all b ++ (0 ∷ 0 ∷ s))
      ≡ (if eq_bytes a b then lex_lt r s else lex_lt a b)
unfolding esc_all lex_lt eq_bytes
lex_lt-escaped [] [] r s = refl
lex_lt-escaped [] (zero ∷ b) r s = refl
lex_lt-escaped [] (suc y ∷ b) r s = ground arith
lex_lt-escaped (zero ∷ a) [] r s = refl
lex_lt-escaped (suc x ∷ a) [] r s = ground arith
lex_lt-escaped (zero ∷ a) (zero ∷ b) r s = lex_lt-escaped a b r s
lex_lt-escaped (zero ∷ a) (suc y ∷ b) r s = ground arith
lex_lt-escaped (suc x ∷ a) (zero ∷ b) r s = ground arith
lex_lt-escaped (suc x ∷ a) (suc y ∷ b) r s = ground (arith, lex_lt-escaped a b r s)

-- Two encoded byte strings compare as the strings do, and what follows them decides only when the
-- strings are equal.
pub lex_lt-encode_bytes :
    (a b r s : Bytes)
    → lex_lt (encode_bytes a ++ r) (encode_bytes b ++ s)
      ≡ (if eq_bytes a b then lex_lt r s else lex_lt a b)
lex_lt-encode_bytes a b r s = rw (encoded-append a r, encoded-append b s) (lex_lt-escaped a b r s)
