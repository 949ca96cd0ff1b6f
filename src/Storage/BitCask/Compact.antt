-- ===== src/Storage/BitCask/Compact.antt =====
-- src/storage/bitcask.rs: a compaction keeps the map and drops the garbage.
use toydb.Prelude.{
  ◌+◌, ◌*◌, ◌≡◌, refl, sym, ap, subst, ◌∙◌, true, Bool-cases, inl, inr, some, [], ◌∷◌, ◌++◌, arith,
  length, length-append, append_assoc, append-nil, All,
}
use toydb.Error.{ok}
use toydb.Encoding.Bytes.{Bytes, lex_lt, eq_bytes}
use toydb.Storage.BTreeMap
use toydb.Storage.BTreeMap.{IsAscending}
use toydb.Storage.Memory.{Memory, Status, total_size}
use toydb.Storage.BitCask
use toydb.Storage.BitCask.{
  ValueLocation, KeyDir, BitCask, end, bytes_of, encode_entry, write_entry, update_keydir, scan_log,
  new, keydir_size, copy_live, compact, status,
}
use toydb.Storage.BitCask.File.{FitsEntry, length-encode_entry}
use toydb.Storage.BitCask.Located.{Located, empty, entry, Located-length, Located-size}
use toydb.Encoding.Bytes.{lex_lt_asymm, lex_lt_irrefl, eq_bytes→eq}
use toydb.Storage.BitCask.Refinement.{Refines, set-Refines, empty-Refines}

-- The entries of a map, added to another.
insert_all : Memory → Memory → Memory
insert_all [] n = n
insert_all ((k, v) ∷ m) n = insert_all m (BTreeMap.insert k v n)

-- A key behind all others is inserted at the end.
insert-last :
    (k v : Bytes) (m : Memory)
    → All (λ e. lex_lt e.0 k ≡ true) m
    → BTreeMap.insert k v m ≡ m ++ (k, v) ∷ []
unfolding BTreeMap.insert
insert-last k v [] h = refl
insert-last k v ((j, w) ∷ m) h = elim (Bool-cases (eq_bytes j k)) [
  | inl same ↦ absurd (cc (lex_lt_irrefl k, rw (eq_bytes→eq j k same) at h.0))
  | inr other ↦
      rw (lex_lt_asymm j k h.0, other) (ap (λ (l : Memory). (j, w) ∷ l) (insert-last k v m h.1))
]

All-last :
    (P : Bytes × Bytes → Type 0) (m : Memory) (e : Bytes × Bytes)
    → All P m
    → P e
    → All P (m ++ e ∷ [])
All-last P [] e h p = (p, tt)
All-last P (x ∷ m) e h p = (h.0, All-last P m e h.1 p)

-- Each key of the second map lies before all of the first.
abbrev Before : Memory → Memory → Type 0
Before m = All (λ e. BTreeMap.Below e.0 m)

heads : (k v : Bytes) (m n : Memory) → Before ((k, v) ∷ m) n → All (λ e. lex_lt e.0 k ≡ true) n
heads k v m [] h = tt
heads k v m (e ∷ n) h = (h.0.0, heads k v m n h.1)

tails : (k v : Bytes) (m n : Memory) → Before ((k, v) ∷ m) n → Before m n
tails k v m [] h = tt
tails k v m (e ∷ n) h = (h.0.1, tails k v m n h.1)

insert_all-append : (m n : Memory) → IsAscending m → Before m n → insert_all m n ≡ n ++ m
unfolding insert_all
insert_all-append [] n a b = sym (append-nil n)
insert_all-append ((k, v) ∷ m) n a b = rw (insert-last k v n (heads k v m n b)) (
    insert_all-append m (n ++ (k, v) ∷ []) a.1
      (All-last (λ e. BTreeMap.Below e.0 m) n (k, v) (tails k v m n b) a.0)
    ∙ append_assoc n ((k, v) ∷ []) m)

length-set :
    (k v : Bytes) (s : BitCask)
    → length (BitCask.set k v s).1.file ≡ length s.file + 8 + length k + length v
unfolding BitCask.set write_entry
length-set k v s =
    omega (arith, length-append s.file (encode_entry k (some v)), length-encode_entry k (some v))

-- What a compaction copies is the map, in a log with one entry for each key.
copy_live-Refines :
    (file : Bytes) (fresh : BitCask) {kd : KeyDir} {m n : Memory}
    → Located file kd m
    → Refines fresh n
    → All (λ e. FitsEntry e.0 (some e.1)) m
    → (t : BitCask) × (copy_live file kd fresh ≡ ok t)
      × Refines t (insert_all m n)
      × (length t.file ≡ length fresh.file + total_size m + 8 * length m)
unfolding copy_live insert_all
copy_live-Refines file fresh empty h fits = (fresh, refl, h, omega arith)
copy_live-Refines file fresh {n = n} (entry k v loc inside old located) h (fit, fits) =
    let (t, copied, refines, size) =
      copy_live-Refines file (BitCask.set k v fresh).1 located (set-Refines fresh n k v h fit)
        fits in
    (t, rw old copied, refines, omega (arith, size, length-set k v fresh))

-- A compaction of an engine that stands for a map succeeds. The new engine stands for the same
-- map, and its file is as long as its live data: the status finds no garbage.
pub compact-Refines :
    (s : BitCask) (m : Memory)
    → Refines s m
    → (t : BitCask) × (compact s ≡ (ok tt, t))
      × Refines t m
      × (length t.file ≡ keydir_size t.keydir + 8 * length t.keydir)
unfolding compact
compact-Refines s m h =
    let (t, copied, refines, size) =
      copy_live-Refines s.file (record { file = []; keydir = [] }) h.located empty-Refines
        h.small in
    let same = insert_all-append m [] h.ascending tt in
    let refines_m = subst (Refines t) same refines in
    (
      t,
      rw copied refl,
      refines_m,
      omega (
        arith,
        size,
        Located-size t.file refines_m.located,
        Located-length t.file refines_m.located,
      ),
    )

-- The status of an engine that stands for a map has the number of the keys, the length of the keys
-- and the values, the length of the file, and the length that the file has after a compaction.
pub status_lem :
    (s : BitCask) (m : Memory)
    → Refines s m
    → (st : Status) × (t : BitCask) × (status s ≡ (ok st, s))
      × (st.keys ≡ length m)
      × (st.size ≡ total_size m)
      × (st.disk_size ≡ length s.file)
      × (compact s ≡ (ok tt, t))
      × (st.live_disk_size ≡ length t.file)
unfolding status
status_lem s m h =
    let (t, compacted, refines, size) = compact-Refines s m h in
    (
      _,
      t,
      refl,
      Located-length s.file h.located,
      Located-size s.file h.located,
      refl,
      compacted,
      omega (
        arith,
        size,
        Located-size s.file h.located,
        Located-length s.file h.located,
        Located-size t.file refines.located,
        Located-length t.file refines.located,
      ),
    )
