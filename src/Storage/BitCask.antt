-- ===== src/Storage/BitCask.antt =====
-- src/storage/bitcask.rs: an engine that appends entries to a log file, and keeps in memory where
-- the value of each key lies. The file is its bytes; the file system itself does not fail. File
-- offsets are far below 2 ^ 64, so no sum of an offset and 32-bit lengths wraps.
pub mod File
pub mod Replay
pub mod Compact
mod Tests
pub mod Refinement
pub mod Torn
pub mod Located
use toydb.Prelude.{
  ℕ, zero, suc, ◌+◌, ◌*◌, ◌^◌, ◌%◌, ◌≤◌, ◌<◌, Bool, true, false, Option, none, some, List, [], ◌∷◌,
  ◌++◌, ◌-◌, ◌&&◌, ltb, leb, if◌then◌else◌, length, take, drop,
}
use toydb.Error.{Result, ok, err, panic, io}
use toydb.Error
use toydb.Exec.{Exec, pure, lift, ◌>>=◌, ◌>>◌, put, self}
use toydb.Encoding.Bytes.{Bytes, Range}
use toydb.Encoding.Keycode.{to_be_bytes, from_be_bytes}
use toydb.Storage.BTreeMap
use toydb.Storage.BTreeMap.{BTreeMap}
use toydb.Storage.Memory.{Status}

pub record ValueLocation : Type 0 where
  pub offset : ℕ
  pub length : ℕ

unfoldable pub end : ValueLocation → ℕ
end loc = loc.offset + loc.length

abbrev pub KeyDir : Type 0
KeyDir = BTreeMap ValueLocation

pub record BitCask : Type 0 where
  pub file : Bytes
  pub keydir : KeyDir

abbrev pub u32_mod : ℕ
u32_mod = 2 ^ 32

abbrev pub i32_min : ℕ
i32_min = 2 ^ 31

-- The length field of a value: its 32 bits, or those of -1 for a tombstone.
unfoldable pub value_length : Option Bytes → ℕ
value_length none = 4294967295
value_length (some v) = length v % u32_mod

abbrev pub bytes_of : Option Bytes → Bytes
bytes_of none = []
bytes_of (some v) = v

unfoldable pub encode_entry : Bytes → Option Bytes → Bytes
encode_entry key value =
    to_be_bytes 4 (length key % u32_mod)
    ++ (to_be_bytes 4 (value_length value) ++ (key ++ bytes_of value))

-- `Log::write_entry`: appends the entry to the file.
unfoldable pub write_entry : Bytes → Option Bytes → Bytes → ValueLocation × Bytes
write_entry key value file = (
  record { offset = length file + 8 + length key; length = length (bytes_of value) },
  file ++ encode_entry key value,
)

-- `read_exact`: that many bytes, or none when the input ends before.
unfoldable pub read_exact : ℕ → Bytes → Option (Bytes × Bytes)
read_exact n input = if leb n (length input) then some (take n input, drop n input) else none

abbrev pub read_or_io : Option (Bytes × Bytes) → Result Bytes
read_or_io none = err io
read_or_io (some (value, _)) = ok value

-- `Log::read_value`
unfoldable pub read_value : ValueLocation → Bytes → Result Bytes
read_value loc file = read_or_io (read_exact loc.length (drop loc.offset file))

infixl 5 ◌>>=?◌
abbrev pub ◌>>=?◌ : {A B : Type 0} → Option A → (A → Option B) → Option B
none >>=? next = none
some a >>=? next = next a

-- A negative `i32` is a tombstone.
unfoldable pub location : ℕ → ℕ → ℕ → Option ValueLocation
location offset key_len value_len =
    if ltb value_len i32_min
    then some (record { offset = offset + 8 + key_len; length = value_len })
    else none

-- Skips the value, unless it ends behind the end of the file.
unfoldable pub skip_value : ℕ → Option ValueLocation → Bytes → Option Bytes
skip_value file_len none input = some input
skip_value file_len (some loc) input =
    if ltb file_len (end loc) then none else some (drop loc.length input)

-- The key and the value behind the length fields.
unfoldable pub read_body : ℕ → ℕ → ℕ → ℕ → Bytes → Option (Bytes × Option ValueLocation × Bytes)
read_body file_len offset key_len value_len input =
    let loc = location offset key_len value_len in
    read_exact key_len input >>=? λ key.
    skip_value file_len loc key.1 >>=? λ rest. some (key.0, loc, rest)

-- The entry at an offset, with the input behind it; none when it is incomplete.
unfoldable pub read_entry : ℕ → ℕ → Bytes → Option (Bytes × Option ValueLocation × Bytes)
read_entry file_len offset input = read_exact 4 input >>=? λ key_field.
    read_exact 4 key_field.1 >>=? λ value_field.
    read_body file_len offset (from_be_bytes 0 key_field.0) (from_be_bytes 0 value_field.0)
      value_field.1

abbrev pub stored_length : Option ValueLocation → ℕ
stored_length none = 0
stored_length (some loc) = loc.length

unfoldable pub update_keydir : Bytes → Option ValueLocation → KeyDir → KeyDir
update_keydir key none keydir = BTreeMap.remove key keydir
update_keydir key (some loc) keydir = BTreeMap.insert key loc keydir

-- The loop of `Log::build_keydir`, with the offset where it ends. Each round reads eight bytes at
-- least, so as many rounds as the file has bytes are enough; it panics when they are not.
unfoldable pub scan_log : ℕ → ℕ → ℕ → Bytes → KeyDir → Result (KeyDir × ℕ)
scan_log zero file_len offset input keydir = panic
scan_log (suc rounds) file_len offset input keydir =
    if leb file_len offset then ok (keydir, offset) else elim (read_entry file_len offset input) [
      | none ↦ ok (keydir, offset)
      | some (key, loc, rest) ↦
          scan_log rounds file_len (offset + (8 + length key + stored_length loc)) rest
            (update_keydir key loc keydir)
    ]

-- `BitCask::new`: an incomplete entry at the end is cut off.
unfoldable pub new : Bytes → Result BitCask
new file =
    Error.◌>>=◌ (scan_log (suc (length file)) (length file) 0 file [])
      λ scanned. ok (record { file = take scanned.1 file; keydir = scanned.0 })

unfoldable pub set : Bytes → Bytes → Exec BitCask (Unit {0})
set key value s =
    let (loc, file) = write_entry key (some value) s.file in
    (ok tt, record { file = file; keydir = BTreeMap.insert key loc s.keydir })

unfoldable pub delete : Bytes → Exec BitCask (Unit {0})
delete key s =
    let (_, file) = write_entry key none s.file in
    (ok tt, record { file = file; keydir = BTreeMap.remove key s.keydir })

unfoldable pub flush : Exec BitCask (Unit {0})
flush = pure tt

abbrev pub read_found : Option ValueLocation → Bytes → Result (Option Bytes)
read_found none file = ok none
read_found (some loc) file = Error.◌>>=◌ (read_value loc file) λ v. ok (some v)

unfoldable pub get : Bytes → Exec BitCask (Option Bytes)
get key s = (read_found (BTreeMap.get key s.keydir) s.file, s)

-- The items of a scan, each read when it is reached.
unfoldable pub read_all : Bytes → KeyDir → Result (List (Bytes × Bytes))
read_all file [] = ok []
read_all file ((key, loc) ∷ keydir) =
    Error.◌>>=◌ (read_value loc file)
      λ v. Error.◌>>=◌ (read_all file keydir) λ items. ok ((key, v) ∷ items)

unfoldable pub scan : Range → Exec BitCask (List (Bytes × Bytes))
scan r s = (Error.◌>>=◌ (BTreeMap.range r s.keydir) (read_all s.file), s)

unfoldable pub keydir_size : KeyDir → ℕ
keydir_size [] = 0
keydir_size ((key, loc) ∷ keydir) = length key + loc.length + keydir_size keydir

unfoldable pub status : Exec BitCask Status
status s =
    let keys = length s.keydir in
    let size = keydir_size s.keydir in
    pure
      (record {
        keys = keys;
        size = size;
        disk_size = length s.file;
        live_disk_size = size + 8 * keys;
      })
      s

-- The loop of `compact`, from the old file to the new one.
unfoldable pub copy_live : Bytes → KeyDir → BitCask → Result BitCask
copy_live file [] fresh = ok fresh
copy_live file ((key, loc) ∷ keydir) fresh =
    Error.◌>>=◌ (read_value loc file) λ v. copy_live file keydir (set key v fresh).1

unfoldable pub compact : Exec BitCask (Unit {0})
compact = do
  s ← self
  fresh ← lift (copy_live s.file s.keydir (record { file = []; keydir = [] }))
  put fresh

-- `new_maybe_compact`: `exceeds` compares the fraction of the garbage in the whole file with the
-- given fraction, in floating point.
unfoldable pub new_maybe_compact : (ℕ → ℕ → Bool) → ℕ → Bytes → Result BitCask
new_maybe_compact exceeds garbage_min_bytes file = Error.◌>>=◌ (new file) λ engine.
    let live = keydir_size engine.keydir + 8 * length engine.keydir in
    let garbage = length engine.file - live in
    if ltb 0 garbage && leb garbage_min_bytes garbage && exceeds garbage (length engine.file)
    then (Error.◌>>=◌ (compact engine).0 λ _. ok (compact engine).1)
    else ok engine
