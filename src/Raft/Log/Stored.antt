-- ===== src/Raft/Log/Stored.antt =====
-- src/raft/log.rs: what the log's operations store, as changes to the map of entries.
use toydb.Prelude.{
  ℕ, zero, suc, ◌+◌, ◌<◌, ◌≤◌, ◌≡◌, ◌≢◌, ◌⊎◌, inl, inr, refl, sym, ◌∙◌, Bool-cases, Option, none,
  some, List, [], ◌∷◌, arith, ltb, leb, ◌==◌, if◌then◌else◌, All, In, here, there, ==_iff, subst,
  ◌&&◌,
}
use toydb.Error.{ok}
use toydb.Exec.{for_each}
use toydb.Encoding.Bytes.{Bytes, eq_bytes_refl}
use toydb.Encoding.Keycode.{u64_mod}
use toydb.Storage.BTreeMap
use toydb.Storage.BTreeMap.Lookup.{get-insert_self, get-insert_ne, get-remove, get-remove_ne}
use toydb.Storage.Memory
use toydb.Storage.Memory.{Memory}
use toydb.Raft.Log.Key.{entry, encode, entry_injective}
use toydb.Raft.Log.{Log, Entry, Bincode, on_engine, write_entries, delete_from}

-- The stored entry at an index.
abbrev pub stored : ℕ → Memory → Option Bytes
stored i m = BTreeMap.get (encode (entry i)) m

pub delete_all : ℕ → ℕ → Memory → Memory
delete_all zero i m = m
delete_all (suc n) i m = delete_all n (i + 1) (BTreeMap.remove (encode (entry i)) m)

pub delete_from-delete_all :
    (n i : ℕ) (log : Log)
    → delete_from n i log ≡ (ok tt, record log { engine = delete_all n i log.engine })
unfolding delete_from delete_all on_engine Memory.delete
delete_from-delete_all zero i log = refl
delete_from-delete_all (suc n) i log = delete_from-delete_all n (i + 1) _

stored-remove :
    (i j : ℕ) (m : Memory)
    → i < u64_mod
    → j < u64_mod
    → stored j (BTreeMap.remove (encode (entry i)) m) ≡ (if i == j then none else stored j m)
stored-remove i j m h k = elim (Bool-cases (i == j)) [
  | inl same ↦ rw (
    (==_iff i j).0 same,
    (==_iff j j).1 refl,
    get-remove (encode (entry j)) (encode (entry j)) m,
    eq_bytes_refl (encode (entry j)),
  )
  | inr other ↦
      rw other (get-remove_ne _ _ m λ q. cc (other, (==_iff i j).1 (entry_injective i j h k q)))
]

-- The deleted indexes are empty, and the others as they were.
pub stored-delete_all :
    (n i j : ℕ) (m : Memory)
    → i + n ≤ u64_mod
    → j < u64_mod
    → stored j (delete_all n i m) ≡ (if leb i j && ltb j (i + n) then none else stored j m)
unfolding delete_all
stored-delete_all zero i j m h k = ground arith
stored-delete_all (suc n) i j m h k =
    stored-delete_all n (i + 1) j _ (omega arith) k
    ∙ rw (stored-remove i j m (omega arith) k) (ground arith)

-- What is under another key stays.
pub other-delete_all :
    (n i : ℕ) (k : Bytes) (m : Memory)
    → ((j : ℕ) → k ≢ encode (entry j))
    → BTreeMap.get k (delete_all n i m) ≡ BTreeMap.get k m
unfolding delete_all
other-delete_all zero i k m h = refl
other-delete_all (suc n) i k m h =
    other-delete_all n (i + 1) k _ h ∙ get-remove_ne _ k m λ e. h i (sym e)

module _ (bincode : Bincode) where
  open bincode use {entries}

  pub write_all : List Entry → Memory → Memory
  write_all [] m = m
  write_all (e ∷ es) m =
      write_all es (BTreeMap.insert (encode (entry e.index)) (entries.encode e) m)

  pub write_entries-write_all :
      (es : List Entry) (log : Log)
      → write_entries bincode es log ≡ (ok tt, record log { engine = write_all es log.engine })
  unfolding write_entries write_all on_engine Memory.set for_each
  write_entries-write_all [] log = refl
  write_entries-write_all (e ∷ es) log = write_entries-write_all es _

  -- An index holds what it held, or one of the written entries.
  abbrev pub Written : List Entry → ℕ → Option Bytes → Option Bytes → Type 0
  Written es j before after =
      (after ≡ before) ⊎ ((e : Entry) × In e es × (e.index ≡ j) × (after ≡ some (entries.encode e)))

  pub stored-insert :
      (e : Entry) (j : ℕ) (m : Memory)
      → e.index < u64_mod
      → j < u64_mod
      → (e.index ≡ j)
        ⊎ (stored j (BTreeMap.insert (encode (entry e.index)) (entries.encode e) m) ≡ stored j m)
  stored-insert e j m h k = elim (Bool-cases (e.index == j)) [
    | inl same ↦ inl ((==_iff e.index j).0 same)
    | inr other ↦ inr (
        get-insert_ne _ _ _ m
          λ q. cc (other, (==_iff e.index j).1 (entry_injective e.index j h k q)))
  ]

  pub stored-write_all :
      (es : List Entry) (j : ℕ) (m : Memory)
      → All (λ e. e.index < u64_mod) es
      → j < u64_mod
      → Written es j (stored j m) (stored j (write_all es m))
  unfolding write_all
  stored-write_all [] j m h k = inl refl
  stored-write_all (e ∷ es) j m h k =
      let m' = BTreeMap.insert (encode (entry e.index)) (entries.encode e) m in
      elim (stored-write_all es j m' h.1 k) [
        | inr (f, i, p, q) ↦ inr (f, there i, p, q)
        | inl q ↦ elim (stored-insert e j m h.0 k) [
          | inl same ↦ inr (
            e,
            here,
            same,
            q
                ∙ subst (λ (x : ℕ). stored x m' ≡ some (entries.encode e)) same
                    (get-insert_self (encode (entry e.index)) (entries.encode e) m),
          )
          | inr other ↦ inl (q ∙ other)
        ]
      ]

  pub other-write_all :
      (es : List Entry) (k : Bytes) (m : Memory)
      → ((j : ℕ) → k ≢ encode (entry j))
      → BTreeMap.get k (write_all es m) ≡ BTreeMap.get k m
  unfolding write_all
  other-write_all [] k m h = refl
  other-write_all (e ∷ es) k m h =
      other-write_all es k _ h ∙ get-insert_ne _ k _ m λ q. h e.index (sym q)
