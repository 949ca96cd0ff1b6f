-- ===== src/Raft/Log/History.antt =====
-- src/raft/log.rs: the history of a log, as a sequence of operations with any outcomes.
use toydb.Prelude.{◌+◌, ◌<◌, ◌≡◌, refl, Option, some, List, arith, inl, inr}
use toydb.Error.{ok}
use toydb.Encoding.Bytes.{Bytes}
use toydb.Encoding.Keycode.{u64_mod}
use toydb.Storage.BTreeMap.Lookup.{get-insert_self}
use toydb.Storage.Memory
use toydb.Raft.Log.Key.{entry, encode}
use toydb.Raft.Log.Spliced.{Fits}
use toydb.Raft.Log.Outcome.{append-cases}
use toydb.Raft.Log.Safety.{
  Inv, Safe, Advances, Advances-refl, Advances-trans, set_term_vote-Safe, append-Safe, commit-Safe,
}
use toydb.Raft.Log.Splice.{splice-Safe}
use toydb.Raft.Log.{
  Log, Entry, Bincode, Index, Term, NodeId, increment, set_term_vote, append, commit, splice, get,
  decode_entry, on_engine,
}

module _ (bincode : Bincode) where
  open bincode use {entries}

  -- An operation, which may have failed. Log indexes do not run out.
  pub data Step : Log → Log → Type 0 where
    sets_term_vote :
        (log : Log) (term : Term) (vote : Option NodeId)
        → Step log (set_term_vote bincode term vote log).1
    appends :
        (log : Log) (command : Option Bytes)
        → log.last_index + 2 < u64_mod
        → Step log (append bincode command log).1
    commits : (log : Log) (index : Index) → index < u64_mod → Step log (commit bincode index log).1
    splices : (log : Log) (es : List Entry) → Fits es → Step log (splice bincode es log).1

  pub data Steps (log : Log) : Log → Type 0 where
    stay : Steps log log
    more : {a b : Log} → Steps log a → Step a b → Steps log b

  Step-Safe : (a b : Log) → Inv bincode a → Step a b → Safe bincode a b
  Step-Safe a _ inv (sets_term_vote _ t v) = set_term_vote-Safe bincode t v a inv
  Step-Safe a _ inv (appends _ c room) = append-Safe bincode c a inv room
  Step-Safe a _ inv (commits _ i h) = commit-Safe bincode i a inv h
  Step-Safe a _ inv (splices _ es fits) = splice-Safe bincode es a inv fits

  -- After any operations with any outcomes, on a log whose counters agree with its entries, they
  -- still agree, the term and the commit index have not fallen, a vote that was cast in a term is
  -- unchanged while the term is, and every entry that was committed is stored as it was.
  pub Steps-Safe : (a b : Log) → Inv bincode a → Steps a b → Inv bincode b × Advances bincode a b
  Steps-Safe a b inv stay = (inv, Advances-refl bincode a)
  Steps-Safe a b inv (more {a = m} s step) =
      let (inv_m, p) = Steps-Safe a m inv s in
      let (inv_b, q) = Step-Safe m b inv_m step in (inv_b, Advances-trans bincode a m b p q)

  -- In a term after 0 and with a next index that fits in 64 bits, an append gives the next index,
  -- under which the entry is then found with the term and the command; it is the new end of the log.
  pub get-append :
      (command : Option Bytes) (log : Log)
      → 0 < log.term
      → log.last_index + 1 < u64_mod
      → let (index, after) = append bincode command log in
        (index ≡ ok (log.last_index + 1))
        × (after.last_index ≡ log.last_index + 1)
        × (after.last_term ≡ log.term)
        × ((get bincode (log.last_index + 1) after).0
            ≡ ok (some (record { index = log.last_index + 1; term = log.term; command = command })))
  unfolding get on_engine decode_entry Memory.get
  get-append command log h fits =
      let next : increment log.last_index ≡ log.last_index + 1 = omega (arith, fits) in
      let e : Entry = record { index = log.last_index + 1; term = log.term; command = command } in
      elim (append-cases bincode command log) [
        | inl (_, zero_term) ↦ absurd (omega (arith, zero_term, h))
        | inr changed ↦
            rw (changed, next)
              (
                refl,
                refl,
                refl,
                rw
                    (
                      get-insert_self (encode (entry (log.last_index + 1))) (entries.encode e)
                          log.engine,
                      entries.decode-encode e tt,
                    )
                    refl,
              )
      ]
