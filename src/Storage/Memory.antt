-- ===== src/Storage/Memory.antt =====
-- src/storage/memory.rs and the `Engine` trait of src/storage/engine.rs: an in-memory engine. Its
-- operations never return an error; a scan panics on a reversed range, as `BTreeMap::range` does.
use toydb.Prelude.{ℕ, ◌+◌, Option, List, [], ◌∷◌, length}
use toydb.Exec.{Exec, pure, reads}
use toydb.Encoding.Bytes.{Bytes, Range}
use toydb.Encoding.Keycode.{prefix_range}
use toydb.Storage.BTreeMap
use toydb.Storage.BTreeMap.{BTreeMap}

pub record Status : Type 0 where
  pub keys : ℕ
  pub size : ℕ
  pub disk_size : ℕ
  pub live_disk_size : ℕ

abbrev pub Memory : Type 0
Memory = BTreeMap Bytes

unfoldable pub delete : Bytes → Exec Memory (Unit {0})
delete key m = pure tt (BTreeMap.remove key m)

unfoldable pub flush : Exec Memory (Unit {0})
flush = pure tt

unfoldable pub get : Bytes → Exec Memory (Option Bytes)
get key m = pure (BTreeMap.get key m) m

unfoldable pub scan : Range → Exec Memory (List (Bytes × Bytes))
scan r = reads (BTreeMap.range r)

unfoldable pub set : Bytes → Bytes → Exec Memory (Unit {0})
set key value m = pure tt (BTreeMap.insert key value m)

unfoldable pub scan_prefix : Bytes → Exec Memory (List (Bytes × Bytes))
scan_prefix prefix = scan (prefix_range prefix)

abbrev pub total_size : BTreeMap Bytes → ℕ
total_size [] = 0
total_size ((k, v) ∷ m) = length k + length v + total_size m

unfoldable pub status : Exec Memory Status
status m =
    pure (record { keys = length m; size = total_size m; disk_size = 0; live_disk_size = 0 }) m
