-- ===== src/Storage/BitCask/Located.antt =====
-- src/storage/bitcask.rs: the key directory beside the map that it stands for. Both have the same
-- keys in the same order, and each location holds the value.
use toydb.Prelude.{
  suc, ◌≤◌, ◌≡◌, refl, sym, ap, ◌∙◌, Bool, not, Bool-cases, inl, inr, [], ◌∷◌, ◌++◌, arith, leb,
  length, drop, keep, length-append,
}
use toydb.Error.{Result, ok, err, panic, ok_injective}
use toydb.Error
use toydb.Encoding.Bytes.{Bytes, Range, lex_lt, eq_bytes, in_range, is_reversed}
use toydb.Storage.BTreeMap
use toydb.Storage.BTreeMap.{BTreeMap}
use toydb.Storage.Memory.{Memory, total_size}
use toydb.Storage.BitCask.{
  ValueLocation, KeyDir, end, read_exact, read_value, read_found, read_all, keydir_size,
}
use toydb.Storage.BitCask.File.{read_value-append, length-take}

pub data Located (file : Bytes) : KeyDir → Memory → Type 0 where
  empty : Located file [] []
  entry :
      (k v : Bytes) (loc : ValueLocation) {kd : KeyDir} {m : Memory}
      → end loc ≤ length file
      → read_value loc file ≡ ok v
      → Located file kd m
      → Located file ((k, loc) ∷ kd) ((k, v) ∷ m)

-- The file may grow.
pub Located-append :
    (file more : Bytes) {kd : KeyDir} {m : Memory} → Located file kd m → Located (file ++ more) kd m
Located-append file more empty = empty
Located-append file more (entry k v loc inside value h) =
    entry k v loc (omega (arith, inside, length-append file more))
      (read_value-append loc file more inside ∙ value) (Located-append file more h)

pub Located-insert :
    (file k v : Bytes) (loc : ValueLocation) {kd : KeyDir} {m : Memory}
    → end loc ≤ length file
    → read_value loc file ≡ ok v
    → Located file kd m
    → Located file (BTreeMap.insert k loc kd) (BTreeMap.insert k v m)
unfolding BTreeMap.insert
Located-insert file k v loc inside value empty = entry k v loc inside value empty
Located-insert file k v loc inside value (entry j w l within old h) =
    let rest = Located-insert file k v loc inside value h in
    elim (Bool-cases (lex_lt k j)) [
      | inl lt ↦ rw lt (entry k v loc inside value (entry j w l within old h))
      | inr ge ↦ elim (Bool-cases (eq_bytes j k)) [
        | inl same ↦ rw (ge, same) (entry k v loc inside value h)
        | inr other ↦ rw (ge, other) (entry j w l within old rest)
      ]
    ]

Located-keep :
    (p : Bytes → Bool) (file : Bytes) {kd : KeyDir} {m : Memory}
    → Located file kd m
    → Located file (keep (λ e. p e.0) kd) (keep (λ e. p e.0) m)
Located-keep p file empty = empty
Located-keep p file (entry j w l within old h) =
    let rest = Located-keep p file h in
    elim (Bool-cases (p j)) [
      | inl kept ↦ rw kept (entry j w l within old rest)
      | inr dropped ↦ rw dropped rest
    ]

pub Located-remove :
    (file k : Bytes) {kd : KeyDir} {m : Memory}
    → Located file kd m
    → Located file (BTreeMap.remove k kd) (BTreeMap.remove k m)
unfolding BTreeMap.remove
Located-remove file k h = Located-keep (λ i. not (eq_bytes i k)) file h

pub Located-get :
    (file k : Bytes) {kd : KeyDir} {m : Memory}
    → Located file kd m
    → read_found (BTreeMap.get k kd) file ≡ ok (BTreeMap.get k m)
unfolding BTreeMap.get
Located-get file k empty = refl
Located-get file k (entry j w l within old h) = elim (Bool-cases (eq_bytes j k)) [
  | inl same ↦ rw (same, old) refl
  | inr other ↦ rw other (Located-get file k h)
]

pub Located-read_all :
    (file : Bytes) {kd : KeyDir} {m : Memory} → Located file kd m → read_all file kd ≡ ok m
unfolding read_all
Located-read_all file empty = refl
Located-read_all file (entry j w l within old h) = rw (old, Located-read_all file h) refl

-- A scan reads what the range holds of the map.
pub Located-range :
    (file : Bytes) (r : Range) {kd : KeyDir} {m : Memory}
    → Located file kd m
    → Error.◌>>=◌ (BTreeMap.range r kd) (read_all file) ≡ BTreeMap.range r m
unfolding BTreeMap.range BTreeMap.select
Located-range file r h = elim (Bool-cases (is_reversed r)) [
  | inl reversed ↦ rw reversed refl
  | inr forward ↦ rw forward (Located-read_all file (Located-keep (λ k. in_range r k) file h))
]

pub Located-length :
    (file : Bytes) {kd : KeyDir} {m : Memory} → Located file kd m → length kd ≡ length m
Located-length file empty = refl
Located-length file (entry j w l within old h) = ap suc (Located-length file h)

read_value-length :
    (loc : ValueLocation) (file v : Bytes) → read_value loc file ≡ ok v → length v ≡ loc.length
unfolding read_value read_exact
read_value-length loc file v h =
    let rest = drop loc.offset file in
    elim (Bool-cases (leb loc.length (length rest))) [
      | inl enough ↦
          ap length (sym (ok_injective (rw enough at h)))
          ∙ length-take loc.length rest (ground (arith, enough))
      | inr short ↦ absurd (cc (rw short at h))
    ]

pub Located-size :
    (file : Bytes) {kd : KeyDir} {m : Memory} → Located file kd m → keydir_size kd ≡ total_size m
unfolding keydir_size
Located-size file empty = refl
Located-size file (entry j w l within old h) =
    omega (arith, Located-size file h, read_value-length l file w old)
