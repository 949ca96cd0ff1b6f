-- ===== src/Storage/Mvcc/Scan.antt =====
-- src/storage/mvcc.rs: the scans of a transaction. An iterator holds the engine's mutex only while
-- it fills its buffer; each call takes the engine as it is then.
pub mod Versions
pub mod Fill
pub mod Reopen
pub mod Rows
mod Tests
use toydb.Prelude.{
  ℕ, zero, suc, ◌-◌, Bool, true, false, Option, none, some, List, [], ◌∷◌, ◌++◌, leb, ◌==◌,
  if◌then◌else◌, length, take,
}
use toydb.Error.{Result, ok, err, panic, invalid_data, ◌>>=◌}
use toydb.Encoding.Bytes.{Bytes, Bound, Range, included, excluded, unbounded, eq_bytes}
use toydb.Encoding.Codec.{Codec}
use toydb.Encoding.Keycode.{u64_mod, prefix_range}
use toydb.Storage.Memory
use toydb.Storage.Memory.{Memory}
use toydb.Storage.Mvcc.Key.{Key, KeyPrefix, version, encode, decode, encode_prefix}
use toydb.Storage.Mvcc.{TransactionState, is_visible}

-- A user key, its version and its encoded value.
abbrev pub Item : Type 0
Item = Bytes × ℕ × Bytes

abbrev pub Next : Type 0
Next = Result (Option Item)

abbrev pub Entries : Type 0
Entries = List (Bytes × Bytes)

-- `VersionIterator`, over the engine's entries that are left.
unfoldable pub visible_or :
    TransactionState → Result Key → Bytes → Entries → Next × Entries → Next × Entries
visible_or txn (ok (version key v)) value inner later =
    if is_visible txn v then (ok (some (key, v, value)), inner) else later
visible_or txn (ok _) value inner later = (err invalid_data, inner)
visible_or txn (err e) value inner later = (err e, inner)
visible_or txn panic value inner later = (panic, inner)

unfoldable pub try_next : TransactionState → Entries → Next × Entries
try_next txn [] = (ok none, [])
try_next txn ((key, value) ∷ inner) = visible_or txn (decode key) value inner (try_next txn inner)

-- `Peekable`, of the standard library: the item that was looked at, and the iterator.
pub record Peekable : Type 0 where
  pub peeked : Option Next
  pub inner : Entries

unfoldable pub next_peeked : TransactionState → Option Next → Entries → Next × Peekable
next_peeked txn (some found) inner = (found, record { peeked = none; inner = inner })
next_peeked txn none inner =
    let (found, rest) = try_next txn inner in (found, record { peeked = none; inner = rest })

unfoldable pub peek_peeked : TransactionState → Option Next → Entries → Next × Peekable
peek_peeked txn (some found) inner = (found, record { peeked = some found; inner = inner })
peek_peeked txn none inner =
    let (found, rest) = try_next txn inner in (found, record { peeked = some found; inner = rest })

unfoldable pub next : TransactionState → Peekable → Next × Peekable
next txn iter = next_peeked txn iter.peeked iter.inner

unfoldable pub peek : TransactionState → Peekable → Next × Peekable
peek txn iter = peek_peeked txn iter.peeked iter.inner

pub record ScanIterator : Type 0 where
  pub txn : TransactionState
  pub buffer : Entries
  pub remainder : Option Range

unfoldable pub start_bound : Bound Bytes → Bound Bytes
start_bound (excluded key) = excluded (encode (version key (u64_mod - 1)))
start_bound (included key) = included (encode (version key 0))
start_bound unbounded = included (encode (version [] 0))

unfoldable pub end_bound : Bound Bytes → Bound Bytes
end_bound (excluded key) = excluded (encode (version key 0))
end_bound (included key) = included (encode (version key (u64_mod - 1)))
end_bound unbounded = excluded (encode_prefix KeyPrefix.unversioned)

unfoldable pub scan : TransactionState → Range → ScanIterator
scan txn (lo, hi) = record {
  txn = txn;
  buffer = [];
  remainder = some (start_bound lo, end_bound hi);
}

-- The prefix of the encoded keys that start with the given one: the terminator is cut off.
unfoldable pub scan_prefix : TransactionState → Bytes → ScanIterator
scan_prefix txn prefix =
    let encoded = encode_prefix (KeyPrefix.version prefix) in
    record {
      txn = txn;
      buffer = [];
      remainder = some (prefix_range (take (length encoded - 2) encoded));
    }

abbrev pub Filled : Type 0
Filled = Result (Unit {0}) × ScanIterator

-- The rest of the range, from the next item on.
unfoldable pub save_remainder : Bound Bytes → Next → ScanIterator → Filled
save_remainder hi panic self = (panic, self)
save_remainder hi (err e) self = (err e, self)
save_remainder hi (ok none) self = (ok tt, self)
save_remainder hi (ok (some (key, v, _))) self =
    (ok tt, record self { remainder = some (included (encode (version key v)), hi) })

-- `Iterator::next` takes a row from the buffer.
unfoldable pub pop_front : Entries → ScanIterator → Result (Option (Bytes × Bytes)) × ScanIterator
pop_front [] self = (ok none, self)
pop_front (row ∷ rows) self = (ok (some row), record self { buffer = rows })

module _ (buffer_size : ℕ) (values : Codec (Option Bytes) (λ _. Unit {0})) where
  module _ (hi : Bound Bytes) (loop : Peekable → ScanIterator → Filled) where
    -- A deleted key is skipped; a full buffer ends the loop.
    unfoldable pub push_live : Bytes → Result (Option Bytes) → Peekable → ScanIterator → Filled
    push_live key panic iter self = (panic, self)
    push_live key (err e) iter self = (err e, self)
    push_live key (ok none) iter self = loop iter self
    push_live key (ok (some value)) iter self =
        let pushed : ScanIterator = record self { buffer = self.buffer ++ ((key, value) ∷ []) } in
        if length pushed.buffer == buffer_size
        then save_remainder hi (next self.txn iter).0 pushed
        else loop iter pushed

    -- An item before another version of its key is skipped.
    unfoldable pub unless_newer : Bytes → Bytes → Next → Peekable → ScanIterator → Filled
    unless_newer key value panic iter self = (panic, self)
    unless_newer key value (err e) iter self = (err e, self)
    unless_newer key value (ok none) iter self = push_live key (values.decode value) iter self
    unless_newer key value (ok (some (other, _, _))) iter self =
        if eq_bytes other key then loop iter self else push_live key (values.decode value) iter self

    unfoldable pub take_item : Next → Peekable → ScanIterator → Filled
    take_item panic iter self = (panic, self)
    take_item (err e) iter self = (err e, self)
    take_item (ok none) iter self = (ok tt, self)
    take_item (ok (some (key, _, value))) iter self =
        let (peeked, rest) = peek self.txn iter in unless_newer key value peeked rest self

  -- The loop of `fill_buffer`, in at most so many rounds.
  unfoldable pub fill_loop : ℕ → Bound Bytes → Peekable → ScanIterator → Filled
  fill_loop zero hi iter self = (panic, self)
  fill_loop (suc rounds) hi iter self =
      let (found, rest) = next self.txn iter in take_item hi (fill_loop rounds hi) found rest self

  unfoldable pub fill_scanned : Bound Bytes → Result Entries → ScanIterator → Filled
  fill_scanned hi panic self = (panic, self)
  fill_scanned hi (err e) self = (err e, self)
  fill_scanned hi (ok entries) self =
      fill_loop (suc (length entries)) hi (record { peeked = none; inner = entries }) self

  unfoldable pub fill_remainder : Memory → Option Range → ScanIterator → Filled
  fill_remainder engine none self = (ok tt, self)
  fill_remainder engine (some range) self =
      fill_scanned range.1 (Memory.scan range engine).0 (record self { remainder = none })

  unfoldable pub fill_buffer : Memory → ScanIterator → Filled
  fill_buffer engine self =
      if leb buffer_size (length self.buffer)
      then (ok tt, self)
      else fill_remainder engine self.remainder self

  unfoldable pub pop_filled :
      Result (Unit {0}) → ScanIterator → Result (Option (Bytes × Bytes)) × ScanIterator
  pop_filled panic self = (panic, self)
  pop_filled (err e) self = (err e, self)
  pop_filled (ok _) self = pop_front self.buffer self

  unfoldable pub next_row : Memory → ScanIterator → Result (Option (Bytes × Bytes)) × ScanIterator
  next_row engine self =
      if length self.buffer == 0
      then (let (filled, rest) = fill_buffer engine self in pop_filled filled rest)
      else pop_front self.buffer self

  unfoldable pub row_and : Result (Option (Bytes × Bytes)) → Result Entries → Result Entries
  row_and panic later = panic
  row_and (err e) later = err e
  row_and (ok none) later = ok []
  row_and (ok (some row)) later = later >>= λ rows. ok (row ∷ rows)

  -- What `try_collect`, of the standard library, makes of an iterator: all its rows, or the first
  -- error, in at most so many calls.
  unfoldable pub collect : ℕ → Memory → ScanIterator → Result Entries
  collect zero engine self = panic
  collect (suc calls) engine self =
      let (row, rest) = next_row engine self in row_and row (collect calls engine rest)
