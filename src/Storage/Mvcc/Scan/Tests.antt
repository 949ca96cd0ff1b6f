-- ===== src/Storage/Mvcc/Scan/Tests.antt =====
-- src/storage/mvcc.rs: scans of a small engine, with a buffer of one row.
use toydb.Prelude.{◌≡◌, refl, false, none, some, List, [], ◌∷◌, map, arith}
use toydb.Error.{ok}
use toydb.Encoding.Bytes.{Range, unbounded, lex_lt, eq_bytes, in_range, is_reversed}
use toydb.Encoding.Keycode.{esc_all, encode_bytes, to_be_bytes, serialize_u64}
use toydb.Storage.BTreeMap.{range, select, IsAscending}
use toydb.Storage.Memory.{Memory}
use toydb.Storage.Mvcc.{TransactionState, is_visible, contains}
use toydb.Storage.Mvcc.Key.{encode, encode_prefix}
use toydb.Storage.Mvcc.Tests.{plain, tag}
use toydb.Storage.Mvcc.Scan.{Item, start_bound, end_bound, scan, collect}
use toydb.Storage.Mvcc.Scan.Versions.{entry, visible}
use toydb.Storage.Mvcc.Scan.Fill.{live}
use toydb.Storage.Mvcc.Scan.Rows.{collect-live}

-- Two versions of one key, a deleted key, a key, and a version from the future.
abbrev items : List Item
items =
    (97 ∷ [], 1, tag (some (7 ∷ [])))
    ∷ (97 ∷ [], 2, tag (some (8 ∷ [])))
    ∷ (98 ∷ [], 1, tag none)
    ∷ (99 ∷ [], 1, tag (some (9 ∷ [])))
    ∷ (100 ∷ [], 3, tag (some (5 ∷ [])))
    ∷ []

abbrev engine : Memory
engine = map entry items

abbrev reader : TransactionState
reader = record { version = 2; read_only = false; active = [] }

abbrev everything : Range
everything = (start_bound unbounded, end_bound unbounded)

engine-IsAscending : IsAscending engine
unfolding encode encode_bytes esc_all serialize_u64 to_be_bytes lex_lt
engine-IsAscending = (
  (refl, (refl, (refl, (refl, tt)))),
  ((refl, (refl, (refl, tt))), ((refl, (refl, tt)), ((refl, tt), (tt, tt)))),
)

range-everything : range everything engine ≡ ok engine
unfolding range select in_range is_reversed start_bound end_bound encode encode_bytes esc_all
    serialize_u64 to_be_bytes lex_lt encode_prefix
range-everything = refl

live-items :
    live plain.values (visible reader items) ≡ ok ((97 ∷ [], 8 ∷ []) ∷ (99 ∷ [], 9 ∷ []) ∷ [])
unfolding live is_visible contains eq_bytes
live-items = refl

collect-live_example :
    collect 1 plain.values 5 engine (scan reader (unbounded, unbounded))
    ≡ live plain.values (visible reader items)
unfolding scan is_visible contains
collect-live_example =
    collect-live 1 plain.values reader engine everything items 5 engine-IsAscending (omega arith)
      range-everything (omega arith, (omega arith, (omega arith, (omega arith, (omega arith, tt)))))
      (omega arith)
