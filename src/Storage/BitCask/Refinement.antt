-- ===== src/Storage/BitCask/Refinement.antt =====
-- src/storage/bitcask.rs beside src/storage/memory.rs: the log file and the key directory stand for
-- an ordered map, and every operation does to the map what the memory engine does.
use toydb.Prelude.{
  ℕ, suc, ◌+◌, ◌-◌, ◌≡◌, ◌⊎◌, refl, sym, ap, ◌∙◌, Bool, true, Bool-cases, inl, inr, Option, none,
  some, List, [], ◌∷◌, ◌++◌, arith, leb, length, keep, length-append, All,
}
use toydb.Error.{Result, ok, ◌>>=◌}
use toydb.Encoding.Bytes.{Bytes, Range, lex_lt, eq_bytes}
use toydb.Storage.BTreeMap
use toydb.Storage.BTreeMap.{IsAscending}
use toydb.Storage.BTreeMap.Order.{insert-IsAscending, remove-IsAscending}
use toydb.Storage.Memory
use toydb.Storage.Memory.{Memory, total_size}
use toydb.Storage.BitCask
use toydb.Storage.BitCask.{
  ValueLocation, KeyDir, BitCask, end, bytes_of, encode_entry, write_entry, update_keydir, scan_log,
  new, keydir_size, copy_live, compact,
}
use toydb.Storage.BitCask.File.{FitsEntry, location_of, read_value-write_entry, take-length_append}
use toydb.Storage.BitCask.Located.{
  Located, empty, Located-append, Located-insert, Located-remove, Located-get, Located-range,
  Located-length, Located-size,
}
use toydb.Storage.BitCask.Replay.{
  LogEntry, Fits, encode_log, replay, length-le-encode_log, encode_log-append, replay-append,
  scan_log-encode_log,
}
use toydb.Storage.BitCask.Torn.{IsTorn, read_entry-IsTorn}

-- The entries of a map fit in a log file.
abbrev pub Small : Memory → Type 0
Small = All (λ e. FitsEntry e.0 (some e.1))

-- The file is a log of entries that fit, the key directory is what scanning them finds, and every
-- location in it holds the value that the map has.
pub record Refines (s : BitCask) (m : Memory) : Type 0 where
  pub located : Located s.file s.keydir m
  pub ascending : IsAscending m
  pub small : Small m
  pub log : List LogEntry
  pub fits : Fits log
  pub file : s.file ≡ encode_log log
  pub keydir : s.keydir ≡ replay 0 log []

-- An empty file stands for the empty map.
pub empty-Refines : Refines (record { file = []; keydir = [] }) []
unfolding encode_log replay
empty-Refines = record {
  located = empty;
  ascending = tt;
  small = tt;
  log = [];
  fits = tt;
  file = refl;
  keydir = refl;
}

Fits-append :
    (es : List LogEntry) (key : Bytes) (value : Option Bytes)
    → Fits es
    → FitsEntry key value
    → Fits (es ++ (key, value) ∷ [])
Fits-append [] key value h fits = (fits, tt)
Fits-append (e ∷ es) key value h fits = (h.0, Fits-append es key value h.1 fits)

insert-Small :
    (k v : Bytes) (m : Memory) → FitsEntry k (some v) → Small m → Small (BTreeMap.insert k v m)
unfolding BTreeMap.insert
insert-Small k v [] fits h = (fits, tt)
insert-Small k v ((j, w) ∷ m) fits h =
    let rest = insert-Small k v m fits h.1 in
    elim (Bool-cases (lex_lt k j)) [
      | inl lt ↦ rw lt (fits, h)
      | inr ge ↦ elim (Bool-cases (eq_bytes j k)) [
        | inl same ↦ rw (ge, same) (fits, h.1)
        | inr other ↦ rw (ge, other) (h.0, rest)
      ]
    ]

keep-Small : (p : Bytes × Bytes → Bool) (m : Memory) → Small m → Small (keep p m)
keep-Small p [] h = tt
keep-Small p (e ∷ m) h = elim (Bool-cases (p e)) [
  | inl kept ↦ rw kept (h.0, keep-Small p m h.1)
  | inr dropped ↦ rw dropped (keep-Small p m h.1)
]

pub set-Refines :
    (s : BitCask) (m : Memory) (key value : Bytes)
    → Refines s m
    → FitsEntry key (some value)
    → Refines (BitCask.set key value s).1 (BTreeMap.insert key value m)
unfolding BitCask.set write_entry location_of update_keydir
set-Refines s m key value h fits =
    let (reads, inside) = read_value-write_entry key value s.file in
    let start : 0 + length (encode_log h.log) ≡ length (encode_log h.log) = omega arith in
    record {
      located =
          Located-insert (s.file ++ encode_entry key (some value)) key value _
            (omega (arith, inside)) reads
            (Located-append s.file (encode_entry key (some value)) h.located);
      ascending = insert-IsAscending key value m h.ascending;
      small = insert-Small key value m fits h.small;
      log = h.log ++ (key, some value) ∷ [];
      fits = Fits-append h.log key (some value) h.fits fits;
      file = rw (encode_log-append h.log key (some value), h.file) refl;
      keydir = rw (replay-append 0 h.log [] key (some value), h.keydir, h.file, start) refl;
    }

pub delete-Refines :
    (s : BitCask) (m : Memory) (key : Bytes)
    → Refines s m
    → FitsEntry key none
    → Refines (BitCask.delete key s).1 (BTreeMap.remove key m)
unfolding BitCask.delete BTreeMap.remove write_entry location_of update_keydir
delete-Refines s m key h fits = record {
  located =
      Located-remove (s.file ++ encode_entry key none) key
        (Located-append s.file (encode_entry key none) h.located);
  ascending = remove-IsAscending key m h.ascending;
  small = keep-Small _ m h.small;
  log = h.log ++ (key, none) ∷ [];
  fits = Fits-append h.log key none h.fits fits;
  file = rw (encode_log-append h.log key none, h.file) refl;
  keydir = rw (replay-append 0 h.log [] key none, h.keydir) refl;
}

-- An operation of the engine, and what it answers.
pub data Op : Type 0 where
  set : (key value : Bytes) → Op
  delete : (key : Bytes) → Op
  flush : Op
  get : (key : Bytes) → Op
  scan : (range : Range) → Op
  status : Op

pub data Answer : Type 0 where
  done : Result (Unit {0}) → Answer
  value : Result (Option Bytes) → Answer
  items : Result (List (Bytes × Bytes)) → Answer
  -- The keys and their size; what the disk holds is each engine's own.
  counts : Result (ℕ × ℕ) → Answer

abbrev counted : Result Memory.Status → Answer
counted r = counts (r >>= λ t. ok (t.keys, t.size))

unfoldable pub run_bitcask : Op → BitCask → Answer × BitCask
run_bitcask (set k v) s = let (r, t) = BitCask.set k v s in (done r, t)
run_bitcask (delete k) s = let (r, t) = BitCask.delete k s in (done r, t)
run_bitcask flush s = let (r, t) = BitCask.flush s in (done r, t)
run_bitcask (get k) s = let (r, t) = BitCask.get k s in (value r, t)
run_bitcask (scan range) s = let (r, t) = BitCask.scan range s in (items r, t)
run_bitcask status s = let (r, t) = BitCask.status s in (counted r, t)

unfoldable pub run_memory : Op → Memory → Answer × Memory
run_memory (set k v) m = let (r, t) = Memory.set k v m in (done r, t)
run_memory (delete k) m = let (r, t) = Memory.delete k m in (done r, t)
run_memory flush m = let (r, t) = Memory.flush m in (done r, t)
run_memory (get k) m = let (r, t) = Memory.get k m in (value r, t)
run_memory (scan range) m = let (r, t) = Memory.scan range m in (items r, t)
run_memory status m = let (r, t) = Memory.status m in (counted r, t)

-- Keys are shorter than 2 ^ 32 bytes and values shorter than 2 ^ 31, as the log file wants.
abbrev pub FitsOp : Op → Type 0
FitsOp (set k v) = FitsEntry k (some v)
FitsOp (delete k) = FitsEntry k none
FitsOp _ = Unit

-- One operation on an engine that stands for a map, with what it stores within the limits, gives
-- the answer that the memory engine gives on the map, and stands for its new map.
pub run_bitcask-Refines :
    (op : Op) (s : BitCask) (m : Memory)
    → Refines s m
    → FitsOp op
    → ((run_bitcask op s).0 ≡ (run_memory op m).0)
      × Refines (run_bitcask op s).1 (run_memory op m).1
unfolding run_bitcask run_memory BitCask.flush BitCask.get BitCask.scan Memory.set Memory.delete
    Memory.flush Memory.get Memory.scan BitCask.status Memory.status
run_bitcask-Refines (set k v) s m h fits = (set_done s k v, set-Refines s m k v h fits)
  where
    set_done : (s : BitCask) (k v : Bytes) → done (BitCask.set k v s).0 ≡ done (ok tt)
    set_done s k v = unfold BitCask.set in refl
run_bitcask-Refines (delete k) s m h fits = (delete_done s k, delete-Refines s m k h fits)
  where
    delete_done : (s : BitCask) (k : Bytes) → done (BitCask.delete k s).0 ≡ done (ok tt)
    delete_done s k = unfold BitCask.delete in refl
run_bitcask-Refines flush s m h fits = (refl, h)
run_bitcask-Refines (get k) s m h fits = (ap value (Located-get s.file k h.located), h)
run_bitcask-Refines (scan r) s m h fits = (ap items (Located-range s.file r h.located), h)
run_bitcask-Refines status s m h fits =
    (rw (Located-length s.file h.located, Located-size s.file h.located) refl, h)

unfoldable pub run_all_bitcask : List Op → BitCask → List Answer × BitCask
run_all_bitcask [] s = ([], s)
run_all_bitcask (op ∷ ops) s =
    let (a, t) = run_bitcask op s in let (rest, end) = run_all_bitcask ops t in (a ∷ rest, end)

unfoldable pub run_all_memory : List Op → Memory → List Answer × Memory
run_all_memory [] m = ([], m)
run_all_memory (op ∷ ops) m =
    let (a, n) = run_memory op m in let (rest, end) = run_all_memory ops n in (a ∷ rest, end)

-- Any sequence of operations on an engine that stands for a map, with what they store within the
-- limits, gives the answers that the memory engine gives on the map, and stands for its last map.
-- The answer of a status is its number of keys and their size, not what it says of the disk.
pub run_all_bitcask-Refines :
    (ops : List Op) (s : BitCask) (m : Memory)
    → Refines s m
    → All FitsOp ops
    → ((run_all_bitcask ops s).0 ≡ (run_all_memory ops m).0)
      × Refines (run_all_bitcask ops s).1 (run_all_memory ops m).1
unfolding run_all_bitcask run_all_memory
run_all_bitcask-Refines [] s m h fits = (refl, h)
run_all_bitcask-Refines (op ∷ ops) s m h fits =
    let (same, refines) = run_bitcask-Refines op s m h fits.0 in
    let (rest, last) =
      run_all_bitcask-Refines ops (run_bitcask op s).1 (run_memory op m).1 refines fits.1 in
    (rw (same, rest) refl, last)

scan_log-end :
    (rounds offset : ℕ) (tail : Bytes) (kd : KeyDir)
    → (tail ≡ []) ⊎ IsTorn tail
    → scan_log (suc rounds) (offset + length tail) offset tail kd ≡ ok (kd, offset)
unfolding scan_log
scan_log-end rounds offset tail kd (inl at_end) =
    let over : leb (offset + 0) offset ≡ true = ground arith in rw (at_end, over) refl
scan_log-end rounds offset tail kd (inr torn) =
    elim (Bool-cases (leb (offset + length tail) offset)) [
      | inl over ↦ rw over refl
      | inr going ↦ rw (going, read_entry-IsTorn offset tail torn) refl
    ]

scan_whole :
    (log : List LogEntry) (tail : Bytes) (file_len : ℕ)
    → Fits log
    → (tail ≡ []) ⊎ IsTorn tail
    → file_len ≡ (0 + length (encode_log log)) + length tail
    → scan_log (suc file_len) file_len 0 (encode_log log ++ tail) []
      ≡ ok (replay 0 log [], 0 + length (encode_log log))
scan_whole log tail file_len fits at_end total =
    let r = file_len - length log in
    let rounds : suc file_len ≡ length log + suc r =
      omega (arith, total, length-le-encode_log log) in
    rw rounds (
      scan_log-encode_log log (suc r) file_len 0 tail [] fits (omega (arith, total))
      ∙ rw total (scan_log-end _ (0 + length (encode_log log)) tail (replay 0 log []) at_end))

new-encode_log :
    (log : List LogEntry) (tail : Bytes)
    → Fits log
    → (tail ≡ []) ⊎ IsTorn tail
    → new (encode_log log ++ tail) ≡ ok (record { file = encode_log log; keydir = replay 0 log [] })
unfolding new
new-encode_log log tail fits at_end =
    let scanned =
      scan_whole log tail (length (encode_log log ++ tail)) fits at_end
        (omega (arith, length-append (encode_log log) tail)) in
    let cut : 0 + length (encode_log log) ≡ length (encode_log log) = omega arith in
    rw (scanned, cut, take-length_append (encode_log log) tail) refl

-- Opening the file of an engine that stands for a map, as it is or with an entry at its end that
-- was cut off while it was written, gives the engine as it was before that write.
pub new-Refines :
    (s : BitCask) (m : Memory) (tail : Bytes)
    → Refines s m
    → (tail ≡ []) ⊎ IsTorn tail
    → new (s.file ++ tail) ≡ ok s
new-Refines s m tail h at_end =
    ap (λ (f : Bytes). new (f ++ tail)) h.file
    ∙ new-encode_log h.log tail h.fits at_end
    ∙ rw (sym h.file, sym h.keydir) refl
