-- ===== src/Raft/Log/Recovery.antt =====
-- src/raft/log.rs: what `Log::new` reads back from the engine after a restart.
use toydb.Prelude.{
  ℕ, ◌-◌, ◌≡◌, ◌≢◌, true, refl, sym, ap, subst, ◌∙◌, Option, none, List, [], ◌∷◌, last?, arith, inl,
  inr,
}
use toydb.Error.{ok}
use toydb.Encoding.Bytes.{Bytes, included}
use toydb.Encoding.Keycode.{u64_mod}
use toydb.Exec.{read-cases}
use toydb.Storage.BTreeMap
use toydb.Storage.BTreeMap.Lookup.{get-insert_self, get-insert_ne}
use toydb.Storage.Memory
use toydb.Storage.Memory.{Memory}
use toydb.Raft.Log.Key.{entry, term_vote, commit_index, encode, term_vote-ne, commit_index-ne}
use toydb.Raft.Log.Stored.{other-delete_all, other-write_all}
use toydb.Raft.Log.Outcome.{
  set_term_vote-cases, appended, append-cases, committed, commit_to-cases, spliced,
  splice_rest-cases, splice_between-cases, get-same,
}
use toydb.Raft.Log.History.{Step, Steps, sets_term_vote, appends, commits, splices, stay, more}
use toydb.Raft.Log.{
  Log, Entry, Bincode, Index, Term, NodeId, new, set_term_vote, append, commit, commit_to, splice,
  decode_or, get, last_or, last_position, entry_range,
}

term_vote-commit_index : encode term_vote ≢ encode commit_index
unfolding encode
term_vote-commit_index e = ground arith

module _ (bincode : Bincode) where
  open bincode use {votes}

  -- The engine holds the counters that the log keeps in memory.
  pub record Persisted (log : Log) : Type 0 where
    pub vote :
        decode_or bincode votes.decode (0, none) (BTreeMap.get (encode term_vote) log.engine)
        ≡ ok (log.term, log.vote)
    pub commit :
        decode_or bincode bincode.commits.decode
          (0, 0)
          (BTreeMap.get (encode commit_index) log.engine)
        ≡ ok (log.commit_index, log.commit_term)

  -- A log with the same counters, over an engine with the same two values.
  Persisted-same :
      (a b : Log)
      → Persisted a
      → ((a.term ≡ b.term) × (a.vote ≡ b.vote))
      → ((a.commit_index ≡ b.commit_index) × (a.commit_term ≡ b.commit_term))
      → BTreeMap.get (encode term_vote) b.engine ≡ BTreeMap.get (encode term_vote) a.engine
      → BTreeMap.get (encode commit_index) b.engine ≡ BTreeMap.get (encode commit_index) a.engine
      → Persisted b
  Persisted-same a b p tv ci v c = record {
    vote = rw (v, sym tv.0, sym tv.1) p.vote;
    commit = rw (c, sym ci.0, sym ci.1) p.commit;
  }

  set_term_vote-Persisted :
      (t : Term) (v : Option NodeId) (log : Log)
      → Persisted log
      → Persisted (set_term_vote bincode t v log).1
  unfolding decode_or
  set_term_vote-Persisted t v log p = elim (set_term_vote-cases bincode t v log) [
    | inl same ↦ rw same p
    | inr (inl (same, _, _)) ↦ rw same p
    | inr (inr (changed, _, _)) ↦ subst Persisted (sym (ap (λ q. q.1) changed)) (record {
      vote =
          rw (get-insert_self (encode term_vote) (votes.encode (t, v)) log.engine)
            (votes.decode-encode (t, v) tt);
      commit =
          rw
            (get-insert_ne (encode term_vote) (encode commit_index) (votes.encode (t, v)) log.engine
              term_vote-commit_index)
            p.commit;
    })
  ]

  append-Persisted :
      (command : Option Bytes) (log : Log)
      → Persisted log
      → Persisted (append bincode command log).1
  append-Persisted command log p = elim (append-cases bincode command log) [
    | inl (same, _) ↦ rw same p
    | inr changed ↦ subst Persisted (sym (ap (λ q. q.1) changed)) (
        Persisted-same log (appended bincode command log) p (refl, refl) (refl, refl)
          (get-insert_ne _ (encode term_vote) _ log.engine λ e. term_vote-ne _ (sym e))
          (get-insert_ne _ (encode commit_index) _ log.engine λ e. commit_index-ne _ (sym e)))
  ]

  commit-Persisted :
      (index : Index) (log : Log) → Persisted log → Persisted (commit bincode index log).1
  unfolding commit decode_or
  commit-Persisted index log p =
      elim (read-cases (get bincode index) (commit_to bincode index) log
        (get-same bincode index log)) [
          | inl same ↦ subst Persisted (sym same) p
          | inr (found, _, q) ↦
              subst Persisted (sym q) (elim (commit_to-cases bincode index found log) [
                | inl same ↦ rw same p
                | inr (inl same) ↦ rw same p
                | inr (inr (e, _, _, changed)) ↦
                    subst Persisted (sym (ap (λ r. r.1) changed)) (stored_commit e)
              ])
        ]
    where
      stored_commit : (e : Entry) → Persisted (committed bincode index e log)
      stored_commit e = record {
        vote =
            rw
              (get-insert_ne (encode commit_index) (encode term_vote)
                (bincode.commits.encode (index, e.term)) log.engine
                (λ q. term_vote-commit_index (sym q)))
              p.vote;
        commit =
            rw
              (get-insert_self (encode commit_index) (bincode.commits.encode (index, e.term))
                log.engine)
              (bincode.commits.decode-encode (index, e.term) tt);
      }

  -- What is under a key that is not an entry's.
  spliced-other :
      (last : Entry) (es : List Entry) (log : Log) (k : Bytes)
      → ((j : ℕ) → k ≢ encode (entry j))
      → BTreeMap.get k (spliced bincode last es log).engine ≡ BTreeMap.get k log.engine
  spliced-other last es log k h =
      other-delete_all _ _ k _ h ∙ other-write_all bincode es k log.engine h

  splice-Persisted :
      (es : List Entry) (log : Log) → Persisted log → Persisted (splice bincode es log).1
  unfolding splice
  splice-Persisted [] log p = p
  splice-Persisted (e ∷ es) log p =
      let last = last_or e es in
      elim (splice_between-cases bincode e last (e ∷ es) log) [
        | inl same ↦ subst Persisted (sym same) p
        | inr (_, rest, _, _, q) ↦
            subst Persisted (sym q) (elim (splice_rest-cases bincode last rest log) [
              | inl same ↦ subst Persisted (sym same) p
              | inr (_, _, _, _, changed) ↦ subst Persisted (sym changed) (
                  Persisted-same log (spliced bincode last rest log) p (refl, refl) (refl, refl)
                    (spliced-other last rest log _ term_vote-ne)
                    (spliced-other last rest log _ commit_index-ne))
            ])
      ]

  Step-Persisted : (a b : Log) → Persisted a → Step bincode a b → Persisted b
  Step-Persisted a _ p (sets_term_vote _ t v) = set_term_vote-Persisted t v a p
  Step-Persisted a _ p (appends _ c _) = append-Persisted c a p
  Step-Persisted a _ p (commits _ i _) = commit-Persisted i a p
  Step-Persisted a _ p (splices _ es _) = splice-Persisted es a p

  pub Steps-Persisted : (a b : Log) → Persisted a → Steps bincode a b → Persisted b
  Steps-Persisted a b p stay = p
  Steps-Persisted a b p (more {a = m} s step) = Step-Persisted m b (Steps-Persisted a m p s) step

  -- After any operations with any outcomes on a log whose engine held its counters, opening the
  -- engine again gives a log with the same term, vote and commit index, at the last stored entry,
  -- and changes nothing, if the entries can be scanned and the last one can be decoded.
  pub new-Steps :
      (a b : Log) (found : List (Bytes × Bytes)) (index : Index) (term : Term)
      → Persisted a
      → Steps bincode a b
      → (Memory.scan (entry_range (included 0) (included (u64_mod - 1))) b.engine).0 ≡ ok found
      → last_position bincode (last? found) ≡ ok (index, term)
      → new bincode b.engine
        ≡ (ok (record b { last_index = index; last_term = term; fsync = true }), b.engine)
  unfolding new Memory.get Memory.scan
  new-Steps a b found index term p s scanned position =
      let q = Steps-Persisted a b p s in rw (q.vote, scanned, position, q.commit) refl
