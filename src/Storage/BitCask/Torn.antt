-- ===== src/Storage/BitCask/Torn.antt =====
-- src/storage/bitcask.rs: a write that was cut off, at the end of the log file.
use toydb.Prelude.{
  ℕ, ◌+◌, ◌≤◌, ◌≡◌, ◌≢◌, refl, sym, ap, ◌∙◌, true, false, Bool-cases, inl, inr, Option, none, some,
  [], ◌∷◌, ◌++◌, arith, ltb, leb, length, take, drop, length-append, append-nil,
}
use toydb.Encoding.Bytes.{Bytes}
use toydb.Encoding.Keycode.{from_be_bytes}
use toydb.Storage.BitCask.{
  i32_min, read_body, ValueLocation, end, bytes_of, encode_entry, read_exact, location, skip_value,
  read_entry, ◌>>=?◌,
}
use toydb.Storage.BitCask.File.{
  FitsEntry, location_of, length-encode_entry, read_entry-encode_entry, take-append, drop-append,
  length-drop,
}

some_injective : {A : Type 0} {a b : A} → some a ≡ some b → a ≡ b
some_injective h = cc (h)

-- An incomplete entry at the end of a file.
abbrev pub IsTorn : Bytes → Type 0
IsTorn tail =
    (key : Bytes) × (value : Option Bytes) × (missing : Bytes) × FitsEntry key value
    × (missing ≢ [])
    × (tail ++ missing ≡ encode_entry key value)

read_exact-more :
    (n : ℕ) (input more xs rest : Bytes)
    → read_exact n input ≡ some (xs, rest)
    → (read_exact n (input ++ more) ≡ some (xs, rest ++ more)) × (length input ≡ n + length rest)
unfolding read_exact
read_exact-more n input more xs rest h = elim (Bool-cases (leb n (length input))) [
  | inr short ↦ absurd (cc (rw short at h))
  | inl enough ↦
      let bound : n ≤ length input = ground (arith, enough) in
      let larger : leb n (length (input ++ more)) ≡ true =
        ground (arith, bound, length-append input more) in
      let both = some_injective (rw enough at h) in
      let first : take n input ≡ xs = ap (λ (p : Bytes × Bytes). p.0) both in
      let second : drop n input ≡ rest = ap (λ (p : Bytes × Bytes). p.1) both in
      (
        rw (larger, take-append n input more bound, drop-append n input more bound, first, second)
            refl,
        omega (arith, bound, length-drop n input, ap length second),
      )
]

>>=?-some :
    {A B : Type 0} (m : Option A) (next : A → Option B) {b : B}
    → (m >>=? next) ≡ some b
    → (a : A) × (m ≡ some a) × (next a ≡ some b)
>>=?-some none next h = absurd (cc h)
>>=?-some (some a) next h = (a, refl, h)

skip_value-more :
    (file_len offset key_len value_len : ℕ) (input more rest : Bytes)
    → file_len ≡ offset + 8 + key_len + length input
    → skip_value file_len (location offset key_len value_len) input ≡ some rest
    → skip_value (file_len + length more) (location offset key_len value_len) (input ++ more)
      ≡ some (rest ++ more)
unfolding skip_value location end
skip_value-more file_len offset key_len value_len input more rest len h =
    elim (Bool-cases (ltb value_len i32_min)) [
      | inr tombstone ↦
          let same = some_injective (rw tombstone at h) in
          rw tombstone (ap (λ (r : Bytes). some (r ++ more)) same)
      | inl stored ↦ elim (Bool-cases (ltb file_len (offset + 8 + key_len + value_len))) [
        | inl behind ↦ absurd (cc (rw (stored, behind) at h))
        | inr inside ↦
            let same = some_injective (rw (stored, inside) at h) in
            let larger : ltb (file_len + length more) (offset + 8 + key_len + value_len) ≡ false =
              ground (arith, inside) in
            rw (stored, larger, drop-append value_len input more (ground (arith, inside, len)))
              (ap (λ (r : Bytes). some (r ++ more)) same)
      ]
    ]

read_body-more :
    (file_len offset key_len value_len : ℕ) (input more key rest : Bytes)
    (loc : Option ValueLocation)
    → file_len ≡ offset + 8 + length input
    → read_body file_len offset key_len value_len input ≡ some (key, loc, rest)
    → read_body (file_len + length more) offset key_len value_len (input ++ more)
      ≡ some (key, loc, rest ++ more)
unfolding read_body
read_body-more file_len offset key_len value_len input more key rest loc len h =
    let (k, pk, h1) = >>=?-some (read_exact key_len input) _ h in
    let (r, pr, h2) =
      >>=?-some (skip_value file_len (location offset key_len value_len) k.1) _ h1 in
    let (larger, size) = read_exact-more key_len input more k.0 k.1 pk in
    let skipped =
      skip_value-more file_len offset key_len value_len k.1 more r (omega (arith, len, size)) pr in
    rw (larger, skipped) (cc h2)

-- An entry that is read from an input is read from any longer one.
read_entry-more :
    (file_len offset : ℕ) (input more key rest : Bytes) (loc : Option ValueLocation)
    → file_len ≡ offset + length input
    → read_entry file_len offset input ≡ some (key, loc, rest)
    → read_entry (file_len + length more) offset (input ++ more) ≡ some (key, loc, rest ++ more)
unfolding read_entry
read_entry-more file_len offset input more key rest loc len h =
    let (f, pf, h1) = >>=?-some (read_exact 4 input) _ h in
    let (g, pg, h2) = >>=?-some (read_exact 4 f.1) _ h1 in
    let (larger_f, size_f) = read_exact-more 4 input more f.0 f.1 pf in
    let (larger_g, size_g) = read_exact-more 4 f.1 more g.0 g.1 pg in
    rw (larger_f, larger_g)
      (read_body-more file_len offset (from_be_bytes 0 f.0) (from_be_bytes 0 g.0) g.1 more key rest
        loc (omega (arith, len, size_f, size_g)) h2)

append-eq-nil : (xs ys : Bytes) → xs ++ ys ≡ [] → ys ≡ []
append-eq-nil [] ys h = h
append-eq-nil (x ∷ xs) ys h = absurd (cc h)

-- An incomplete entry is not read.
pub read_entry-IsTorn :
    (offset : ℕ) (tail : Bytes) → IsTorn tail → read_entry (offset + length tail) offset tail ≡ none
read_entry-IsTorn offset tail (key, value, missing, fits, some_missing, whole) =
    not_read (read_entry (offset + length tail) offset tail) refl
  where
    not_read :
        (r : Option (Bytes × Option ValueLocation × Bytes))
        → read_entry (offset + length tail) offset tail ≡ r
        → r ≡ none
    not_read none h = refl
    not_read (some (k, loc, rest)) h =
        let longer = read_entry-more (offset + length tail) offset tail missing k rest loc refl h in
        let size : length tail + length missing ≡ 8 + length key + length (bytes_of value) =
          omega
            (arith, length-append tail missing, ap length whole, length-encode_entry key value) in
        let complete =
          read_entry-encode_entry (offset + length tail + length missing) offset key value [] fits
            (omega (arith, size)) in
        let entry : tail ++ missing ≡ encode_entry key value ++ [] =
          whole ∙ sym (append-nil (encode_entry key value)) in
        let full : read_entry (offset + length tail + length missing) offset (tail ++ missing)
            ≡ some (key, location_of offset key value, []) =
          rw entry complete in
        let same = some_injective (sym longer ∙ full) in
        let left : rest ++ missing ≡ [] =
          ap (λ (p : Bytes × Option ValueLocation × Bytes). p.2) same in
        absurd (some_missing (append-eq-nil rest missing left))
