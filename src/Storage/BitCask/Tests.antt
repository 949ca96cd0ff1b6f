-- ===== src/Storage/BitCask/Tests.antt =====
-- Instances of src/storage/bitcask.rs on a file with two entries.
use toydb.Prelude.{◌≡◌, inr, refl, some, List, [], ◌∷◌, ◌++◌, arith, length, ◌+◌, ◌*◌}
use toydb.Error.{ok}
use toydb.Encoding.Bytes.{included, unbounded}
use toydb.Encoding.Keycode.{to_be_bytes}
use toydb.Storage.Memory
use toydb.Storage.BitCask
use toydb.Storage.BitCask.{BitCask, new, compact, keydir_size, encode_entry, value_length}
use toydb.Storage.BitCask.Torn.{IsTorn}
use toydb.Storage.BitCask.Refinement.{
  Refines, Op, run_all_bitcask, run_all_memory, run_all_bitcask-Refines, new-Refines, empty-Refines,
}
use toydb.Storage.BitCask.Compact.{compact-Refines, status_lem}

abbrev start : BitCask
start = record { file = []; keydir = [] }

abbrev ops : List Op
ops =
    Op.set (1 ∷ []) (5 ∷ [])
    ∷ Op.set (2 ∷ []) (6 ∷ 7 ∷ [])
    ∷ Op.delete (1 ∷ [])
    ∷ Op.get (1 ∷ [])
    ∷ Op.scan (included [], unbounded)
    ∷ Op.status
    ∷ []

abbrev used : BitCask
used = (run_all_bitcask ops start).1

abbrev map : Memory.Memory
map = (run_all_memory ops []).1

run_all_bitcask-Refines_example :
    ((run_all_bitcask ops start).0 ≡ (run_all_memory ops []).0) × Refines used map
run_all_bitcask-Refines_example = run_all_bitcask-Refines ops start [] empty-Refines (omega arith)

-- A write of the key 3 that was cut off in its length fields.
torn : IsTorn (0 ∷ 0 ∷ [])
unfolding encode_entry to_be_bytes value_length
torn = (3 ∷ [], some [], 0 ∷ 1 ∷ 0 ∷ 0 ∷ 0 ∷ 0 ∷ 3 ∷ [], omega arith, λ e. cc e, refl)

new-Refines_example : new (used.file ++ 0 ∷ 0 ∷ []) ≡ ok used
new-Refines_example = new-Refines used map (0 ∷ 0 ∷ []) run_all_bitcask-Refines_example.1 (inr torn)

compact-Refines_example :
    (t : BitCask) × (compact used ≡ (ok tt, t))
    × Refines t map
    × (length t.file ≡ keydir_size t.keydir + 8 * length t.keydir)
compact-Refines_example = compact-Refines used map run_all_bitcask-Refines_example.1

status_lem_example :
    (st : Memory.Status) × (t : BitCask) × (BitCask.status used ≡ (ok st, used))
    × (st.keys ≡ length map)
    × (st.size ≡ Memory.total_size map)
    × (st.disk_size ≡ length used.file)
    × (compact used ≡ (ok tt, t))
    × (st.live_disk_size ≡ length t.file)
status_lem_example = status_lem used map run_all_bitcask-Refines_example.1
