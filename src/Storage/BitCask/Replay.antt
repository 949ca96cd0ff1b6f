-- ===== src/Storage/BitCask/Replay.antt =====
-- src/storage/bitcask.rs: a log file as the entries in it, and what scanning it finds.
use toydb.Prelude.{
  ℕ, suc, ◌+◌, ◌≤◌, ◌<◌, ◌≡◌, refl, sym, ap, ◌∙◌, false, Option, none, some, List, [], ◌∷◌, ◌++◌,
  arith, leb, length, length-append, append_assoc, append-nil, All,
}
use toydb.Encoding.Bytes.{Bytes}
use toydb.Storage.BitCask.{
  ValueLocation, KeyDir, bytes_of, encode_entry, read_entry, stored_length, update_keydir, scan_log,
}
use toydb.Storage.BitCask.File.{
  FitsEntry, location_of, length-encode_entry, read_entry-encode_entry,
}

abbrev pub LogEntry : Type 0
LogEntry = Bytes × Option Bytes

abbrev pub Fits : List LogEntry → Type 0
Fits = All (λ e. FitsEntry e.0 e.1)

unfoldable pub encode_log : List LogEntry → Bytes
encode_log [] = []
encode_log ((key, value) ∷ es) = encode_entry key value ++ encode_log es

-- The key directory after the entries, the first of which begins at the offset.
unfoldable pub replay : ℕ → List LogEntry → KeyDir → KeyDir
replay offset [] kd = kd
replay offset ((key, value) ∷ es) kd =
    replay (offset + (8 + length key + length (bytes_of value))) es
      (update_keydir key (location_of offset key value) kd)

pub encode_log-append :
    (es : List LogEntry) (key : Bytes) (value : Option Bytes)
    → encode_log (es ++ (key, value) ∷ []) ≡ encode_log es ++ encode_entry key value
unfolding encode_log
encode_log-append [] key value = append-nil (encode_entry key value)
encode_log-append ((k, v) ∷ es) key value =
    rw (encode_log-append es key value) (sym (append_assoc (encode_entry k v) (encode_log es) _))

pub replay-append :
    (offset : ℕ) (es : List LogEntry) (kd : KeyDir) (key : Bytes) (value : Option Bytes)
    → replay offset (es ++ (key, value) ∷ []) kd
      ≡ update_keydir key
          (location_of (offset + length (encode_log es)) key value)
          (replay offset es kd)
unfolding replay encode_log
replay-append offset [] kd key value =
    ap (λ (o : ℕ). update_keydir key (location_of o key value) kd) (omega arith)
replay-append offset ((k, v) ∷ es) kd key value =
    let next = offset + (8 + length k + length (bytes_of v)) in
    let here : next + length (encode_log es) ≡ offset + length (encode_entry k v ++ encode_log es) =
      omega (arith, length-append (encode_entry k v) (encode_log es), length-encode_entry k v) in
    rw (sym here) (replay-append next es _ key value)

stored_length-location_of :
    (offset : ℕ) (key : Bytes) (value : Option Bytes)
    → stored_length (location_of offset key value) ≡ length (bytes_of value)
unfolding location_of
stored_length-location_of offset key none = refl
stored_length-location_of offset key (some v) = refl

-- One round of the scan.
scan_log-step :
    (rounds file_len offset : ℕ) (input key rest : Bytes) (loc : Option ValueLocation) (kd : KeyDir)
    → offset < file_len
    → read_entry file_len offset input ≡ some (key, loc, rest)
    → scan_log (suc rounds) file_len offset input kd
      ≡ scan_log rounds file_len
          (offset + (8 + length key + stored_length loc))
          rest
          (update_keydir key loc kd)
unfolding scan_log
scan_log-step rounds file_len offset input key rest loc kd more found =
    let going : leb file_len offset ≡ false = ground (arith, more) in rw (going, found) refl

-- Scanning the encoded entries replays them, and goes on behind them.
pub scan_log-encode_log :
    (es : List LogEntry) (rounds file_len offset : ℕ) (rest : Bytes) (kd : KeyDir)
    → Fits es
    → offset + length (encode_log es) ≤ file_len
    → scan_log (length es + rounds) file_len offset (encode_log es ++ rest) kd
      ≡ scan_log rounds file_len (offset + length (encode_log es)) rest (replay offset es kd)
unfolding encode_log replay
scan_log-encode_log [] rounds file_len offset rest kd fits room =
    let same : offset + 0 ≡ offset = omega arith in
    let all : 0 + rounds ≡ rounds = omega arith in rw (same, all) refl
scan_log-encode_log ((k, v) ∷ es) rounds file_len offset rest kd fits room =
    let count : suc (length es) + rounds ≡ suc (length es + rounds) = omega arith in
    let whole : length (encode_entry k v ++ encode_log es)
        ≡ 8 + length k + length (bytes_of v) + length (encode_log es) =
      omega (arith, length-append (encode_entry k v) (encode_log es), length-encode_entry k v) in
    let next = offset + (8 + length k + length (bytes_of v)) in
    let end : offset + length (encode_entry k v ++ encode_log es) ≡ next + length (encode_log es) =
      omega (arith, whole) in
    rw (count, append_assoc (encode_entry k v) (encode_log es) rest, end)
      (scan_log-step (length es + rounds) file_len offset _ k (encode_log es ++ rest)
          (location_of offset k v) kd (omega (arith, room, whole))
          (read_entry-encode_entry file_len offset k v (encode_log es ++ rest) fits.0
            (omega (arith, room, whole)))
        ∙ rw (stored_length-location_of offset k v) (
            scan_log-encode_log es rounds file_len next rest _ fits.1 (omega (arith, room, whole))))

-- Each entry takes bytes of the file.
pub length-le-encode_log : (es : List LogEntry) → length es ≤ length (encode_log es)
unfolding encode_log
length-le-encode_log [] = omega arith
length-le-encode_log ((k, v) ∷ es) = omega (
  arith,
  length-le-encode_log es,
  length-append (encode_entry k v) (encode_log es),
  length-encode_entry k v,
)
