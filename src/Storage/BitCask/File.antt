-- ===== src/Storage/BitCask/File.antt =====
-- src/storage/bitcask.rs: what is read from the log file, after what was written to it.
use toydb.Prelude.{
  ℕ, zero, suc, ◌+◌, ◌%◌, ◌≤◌, ◌<◌, ◌-◌, ◌≡◌, refl, sym, ap, true, false, Option, none, some, [],
  ◌∷◌, ◌++◌, arith, ltb, length, take, drop, length-append, append_assoc, append-nil,
}
use toydb.Error.{ok}
use toydb.Encoding.Bytes.{Bytes}
use toydb.Encoding.Keycode.{to_be_bytes}
use toydb.Encoding.Keycode.Integers.{length-to_be_bytes, from_be_bytes-to_be_bytes}
use toydb.Storage.BitCask.{
  ValueLocation, end, u32_mod, i32_min, value_length, bytes_of, encode_entry, write_entry,
  read_exact, read_value, location, skip_value, read_body, read_entry,
}

pub drop-length_append : (xs ys : Bytes) → drop (length xs) (xs ++ ys) ≡ ys
drop-length_append [] ys = refl
drop-length_append (x ∷ xs) ys = drop-length_append xs ys

pub take-length_append : (xs ys : Bytes) → take (length xs) (xs ++ ys) ≡ xs
take-length_append [] ys = refl
take-length_append (x ∷ xs) ys = ap (λ (l : Bytes). x ∷ l) (take-length_append xs ys)

pub drop-append : (n : ℕ) (xs ys : Bytes) → n ≤ length xs → drop n (xs ++ ys) ≡ drop n xs ++ ys
drop-append zero xs ys h = refl
drop-append (suc n) [] ys h = absurd (omega arith)
drop-append (suc n) (x ∷ xs) ys h = drop-append n xs ys (omega arith)

pub take-append : (n : ℕ) (xs ys : Bytes) → n ≤ length xs → take n (xs ++ ys) ≡ take n xs
take-append zero xs ys h = refl
take-append (suc n) [] ys h = absurd (omega arith)
take-append (suc n) (x ∷ xs) ys h = ap (λ (l : Bytes). x ∷ l) (take-append n xs ys (omega arith))

pub length-drop : (n : ℕ) (xs : Bytes) → length (drop n xs) ≡ length xs - n
length-drop zero xs = omega arith
length-drop (suc n) [] = omega arith
length-drop (suc n) (x ∷ xs) = omega (arith, length-drop n xs)

pub length-take : (n : ℕ) (xs : Bytes) → n ≤ length xs → length (take n xs) ≡ n
length-take zero xs h = refl
length-take (suc n) [] h = absurd (omega arith)
length-take (suc n) (x ∷ xs) h = ap suc (length-take n xs (omega arith))

-- The first bytes of an input are read exactly.
pub read_exact-append : (xs rest : Bytes) → read_exact (length xs) (xs ++ rest) ≡ some (xs, rest)
unfolding read_exact
read_exact-append xs rest =
    rw (take-length_append xs rest, drop-length_append xs rest)
      (ground (arith, length-append xs rest))

-- What a value was read from may grow.
pub read_value-append :
    (loc : ValueLocation) (file more : Bytes)
    → end loc ≤ length file
    → read_value loc (file ++ more) ≡ read_value loc file
unfolding read_value read_exact end
read_value-append loc file more h =
    rw
      (
        drop-append loc.offset file more (omega arith),
        take-append loc.length (drop loc.offset file) more
            (omega (arith, length-drop loc.offset file)),
      )
      (ground (arith, length-append (drop loc.offset file) more, length-drop loc.offset file))

read_value-at :
    (before v after : Bytes) (offset : ℕ)
    → offset ≡ length before
    → read_value (record { offset = offset; length = length v }) (before ++ (v ++ after)) ≡ ok v
unfolding read_value
read_value-at before v after offset h =
    rw (h, drop-length_append before (v ++ after), read_exact-append v after) refl

pub length-encode_entry :
    (key : Bytes) (value : Option Bytes)
    → length (encode_entry key value) ≡ 8 + length key + length (bytes_of value)
unfolding encode_entry
length-encode_entry key value =
    let kl = to_be_bytes 4 (length key % u32_mod) in
    let vl = to_be_bytes 4 (value_length value) in
    omega (
      arith,
      length-append kl (vl ++ (key ++ bytes_of value)),
      length-append vl (key ++ bytes_of value),
      length-append key (bytes_of value),
      length-to_be_bytes 4 (length key % u32_mod),
      length-to_be_bytes 4 (value_length value),
    )

-- A value is read where it was written.
pub read_value-write_entry :
    (key v file : Bytes)
    → let (loc, after) = write_entry key (some v) file in
      (read_value loc after ≡ ok v) × (end loc ≡ length after)
unfolding write_entry encode_entry end
read_value-write_entry key v file =
    let kl = to_be_bytes 4 (length key % u32_mod) in
    let vl = to_be_bytes 4 (value_length (some v)) in
    let before = file ++ (kl ++ (vl ++ key)) in
    let whole : file ++ (kl ++ (vl ++ (key ++ v))) ≡ before ++ (v ++ []) =
      simp (append_assoc, append-nil) in
    let offset : length file + 8 + length key ≡ length before = omega (
      arith,
      length-append file (kl ++ (vl ++ key)),
      length-append kl (vl ++ key),
      length-append vl key,
      length-to_be_bytes 4 (length key % u32_mod),
      length-to_be_bytes 4 (value_length (some v)),
    ) in
    (
      rw whole (read_value-at before v [] _ offset),
      omega
          (arith, length-append file (encode_entry key (some v)), length-encode_entry key (some v)),
    )

-- The lengths of an entry fit in their fields.
abbrev pub FitsEntry : Bytes → Option Bytes → Type 0
FitsEntry key value = (length key < u32_mod) × (length (bytes_of value) < i32_min)

-- What is stored of an entry that begins at an offset.
unfoldable pub location_of : ℕ → Bytes → Option Bytes → Option ValueLocation
location_of offset key none = none
location_of offset key (some v) =
    some (record { offset = offset + 8 + length key; length = length v })

read_field :
    (v : ℕ) (rest : Bytes) → read_exact 4 (to_be_bytes 4 v ++ rest) ≡ some (to_be_bytes 4 v, rest)
unfolding to_be_bytes
read_field v rest = rw (sym (length-to_be_bytes 4 v)) at (read_exact-append (to_be_bytes 4 v) rest)

-- The two length fields are read, and the rest of the entry follows.
read_entry-fields :
    (file_len offset key_len value_len : ℕ) (body : Bytes)
    → key_len < u32_mod
    → value_len < u32_mod
    → read_entry file_len offset (to_be_bytes 4 key_len ++ (to_be_bytes 4 value_len ++ body))
      ≡ read_body file_len offset key_len value_len body
unfolding read_entry
read_entry-fields file_len offset key_len value_len body h k =
    rw
      (
        read_field key_len (to_be_bytes 4 value_len ++ body),
        read_field value_len body,
        from_be_bytes-to_be_bytes 4 key_len h,
        from_be_bytes-to_be_bytes 4 value_len k,
      )
      refl

-- An entry that was written is read back, with what follows it left over.
pub read_entry-encode_entry :
    (file_len offset : ℕ) (key : Bytes) (value : Option Bytes) (rest : Bytes)
    → FitsEntry key value
    → offset + (8 + length key + length (bytes_of value)) ≤ file_len
    → read_entry file_len offset (encode_entry key value ++ rest)
      ≡ some (key, location_of offset key value, rest)
unfolding read_body encode_entry location_of value_length location skip_value end
read_entry-encode_entry file_len offset key none rest fits room =
    let small : length key % u32_mod ≡ length key = omega (arith, fits.0) in
    rw
      (
        small,
        append-nil key,
        append_assoc (to_be_bytes 4 (length key)) (to_be_bytes 4 4294967295 ++ key) rest,
        append_assoc (to_be_bytes 4 4294967295) key rest,
        read_entry-fields file_len offset (length key) 4294967295 (key ++ rest) fits.0
            (omega arith),
        read_exact-append key rest,
      )
      refl
read_entry-encode_entry file_len offset key (some v) rest fits room =
    let small : length key % u32_mod ≡ length key = omega (arith, fits.0) in
    let short : length v % u32_mod ≡ length v = omega (arith, fits.1) in
    let stored : ltb (length v) i32_min ≡ true = ground (arith, fits.1) in
    let inside : ltb file_len (offset + 8 + length key + length v) ≡ false = ground (arith, room) in
    rw
      (
        small,
        short,
        append_assoc (to_be_bytes 4 (length key)) (to_be_bytes 4 (length v) ++ (key ++ v)) rest,
        append_assoc (to_be_bytes 4 (length v)) (key ++ v) rest,
        append_assoc key v rest,
        read_entry-fields file_len offset (length key) (length v) (key ++ (v ++ rest)) fits.0
            (omega (arith, fits.1)),
        read_exact-append key (v ++ rest),
        stored,
        inside,
        drop-length_append v rest,
      )
      refl
