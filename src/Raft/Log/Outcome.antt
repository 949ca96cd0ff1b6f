-- ===== src/Raft/Log/Outcome.antt =====
-- src/raft/log.rs: the log after each operation. It is as before, or changed in one way.
use toydb.Prelude.{
  ◌+◌, ◌-◌, ◌<◌, ◌≤◌, ◌≡◌, refl, ◌∙◌, Bool, Bool-cases, true, ◌&&◌, ◌||◌, Option, none, some, List,
  [], ◌∷◌, arith, ltb, leb, ◌==◌, ◌⊎◌, inl, inr,
}
use toydb.Error.{ok, panic}
use toydb.Exec.{Exec, self, lift, ◌>>◌, read-cases, ensure-same, ensure-true, ensure, when, ◌>>=◌}
use toydb.Encoding.Bytes.{Bytes, Bound, included}
use toydb.Storage.BTreeMap
use toydb.Storage.Memory
use toydb.Raft.Log.Key.{entry, term_vote, commit_index, encode}
use toydb.Raft.Log.Stored.{delete_all, write_all, delete_from-delete_all, write_entries-write_all}
use toydb.Raft.Log.{
  Log, Entry, Bincode, Index, Term, NodeId, increment, is_none, eq_vote, on_engine, set_term_vote,
  append, commit_to, get, splice_between, splice_rest, is_contiguous, has_rising_terms, touches,
  skip_present, scan,
}

-- Whether a vote may be stored: in a later term, or the first one of the term, or the same one.
abbrev pub may_vote : Term → Option NodeId → Log → Bool
may_vote term vote log = ltb log.term term || is_none log.vote || eq_vote vote log.vote

pub scan-same : (log : Log) (r s : Bound Index) → (scan r s log).1 ≡ log
unfolding scan on_engine Memory.scan
scan-same log r s = ground arith

module _ (bincode : Bincode) where
  open bincode use {entries, votes, commits}

  abbrev pub voted : Term → Option NodeId → Log → Log
  voted term vote log = record log {
    engine = BTreeMap.insert (encode term_vote) (votes.encode (term, vote)) log.engine;
    term = term;
    vote = vote;
  }

  pub set_term_vote-cases :
      (term : Term) (vote : Option NodeId) (log : Log)
      → (set_term_vote bincode term vote log ≡ (panic, log))
        ⊎ ((set_term_vote bincode term vote log ≡ (ok tt, log))
            × (term ≡ log.term)
            × (eq_vote vote log.vote ≡ true))
        ⊎ ((set_term_vote bincode term vote log ≡ (ok tt, voted term vote log))
            × (log.term ≤ term)
            × (may_vote term vote log ≡ true))
  unfolding set_term_vote on_engine ensure Memory.set Memory.flush
  set_term_vote-cases term vote log = ground arith

  abbrev pub appended : Option Bytes → Log → Log
  appended command log =
      let index = increment log.last_index in
      let e : Entry = record { index = index; term = log.term; command = command } in
      record log {
        engine = BTreeMap.insert (encode (entry index)) (entries.encode e) log.engine;
        last_index = index;
        last_term = log.term;
      }

  pub append-cases :
      (command : Option Bytes) (log : Log)
      → ((append bincode command log ≡ (panic, log)) × (log.term ≡ 0))
        ⊎ (append bincode command log ≡ (ok (increment log.last_index), appended command log))
  unfolding append on_engine ensure when Memory.set Memory.flush
  append-cases command log = ground arith

  abbrev pub committed : Index → Entry → Log → Log
  committed index e log = record log {
    engine = BTreeMap.insert (encode commit_index) (commits.encode (index, e.term)) log.engine;
    commit_index = index;
    commit_term = e.term;
  }

  pub commit_to-cases :
      (index : Index) (found : Option Entry) (log : Log)
      → (commit_to bincode index found log ≡ (panic, log))
        ⊎ (commit_to bincode index found log ≡ (ok index, log))
        ⊎ ((e : Entry) × (found ≡ some e)
            × (log.commit_index ≤ e.index)
            × (commit_to bincode index found log ≡ (ok index, committed index e log)))
  unfolding commit_to on_engine ensure Memory.set
  commit_to-cases index none log = inl refl
  commit_to-cases index (some e) log = elim (Bool-cases (leb log.commit_index e.index)) [
    | inr late ↦ inl (rw late refl)
    | inl order ↦ elim (Bool-cases (e.index == log.commit_index)) [
      | inl same ↦ inr (inl (rw (order, same) refl))
      | inr other ↦ inr (inr (e, refl, ground (arith, order), rw (order, other) refl))
    ]
  ]

  abbrev pub spliced : Entry → List Entry → Log → Log
  spliced last es log = record log {
    engine =
        delete_all (log.last_index + 1 - increment last.index) (increment last.index)
          (write_all bincode es log.engine);
    last_index = last.index;
    last_term = last.term;
  }

  pub splice_rest-cases :
      (last : Entry) (es : List Entry) (log : Log)
      → ((splice_rest bincode last es log).1 ≡ log)
        ⊎ ((first : Entry) × (rest : List Entry) × (es ≡ first ∷ rest)
            × (log.commit_index < first.index)
            × ((splice_rest bincode last es log).1 ≡ spliced last es log))
  unfolding splice_rest ensure when on_engine Memory.flush
  splice_rest-cases last [] log = inl refl
  splice_rest-cases last (first ∷ es) log = elim (Bool-cases (ltb log.commit_index first.index)) [
    | inr late ↦ inl (rw late refl)
    | inl order ↦ inr (
      first,
      es,
      refl,
      ground (arith, order),
      rw
          (
            order,
            write_entries-write_all bincode (first ∷ es) log,
            delete_from-delete_all (log.last_index + 1 - increment last.index)
                (increment last.index) _,
          )
          (ground arith),
    )
  ]

  -- A read leaves the log as it is.
  pub get-same : (index : Index) (log : Log) → (get bincode index log).1 ≡ log
  unfolding get on_engine Memory.get
  get-same index log = ground arith

  -- The part of `splice_between` after the checks of the given entries.
  abbrev known_splice : Entry → Entry → List Entry → Exec Log Index
  known_splice first last es = do
    log ← self
    ensure (leb last.term log.term)
    base ← get bincode (first.index - 1)
    ensure (touches base first)
    present ← scan (included first.index) (included last.index)
    rest ← lift (skip_present bincode present es)
    splice_rest bincode last rest

  splice_known :
      (first last : Entry) (es : List Entry) (log : Log)
      → ((known_splice first last es log).1 ≡ log)
        ⊎ ((present : List (Bytes × Bytes)) × (rest : List Entry) × (skip_present bincode present es
              ≡ ok rest)
            × ((known_splice first last es log).1 ≡ (splice_rest bincode last rest log).1))
  splice_known first last es log =
      elim (read-cases (ensure (leb last.term log.term)) _ log (ensure-same _ log)) [
        | inl same ↦ inl same
        | inr (_, _, q0) ↦
            elim (read-cases (get bincode (first.index - 1)) _ log (get-same _ log)) [
              | inl same ↦ inl (q0 ∙ same)
              | inr (base, _, q1) ↦
                  elim (read-cases (ensure (touches base first)) _ log (ensure-same _ log)) [
                    | inl same ↦ inl (q0 ∙ q1 ∙ same)
                    | inr (_, _, q2) ↦
                        elim (read-cases (scan (included first.index) (included last.index)) _ log
                          (scan-same log _ _)) [
                            | inl same ↦ inl (q0 ∙ q1 ∙ q2 ∙ same)
                            | inr (present, _, q3) ↦
                                elim (read-cases (lift (skip_present bincode present es)) _ log
                                  refl) [
                                    | inl same ↦ inl (q0 ∙ q1 ∙ q2 ∙ q3 ∙ same)
                                    | inr (rest, skipped, q4) ↦
                                        inr (present, rest, skipped, q0 ∙ q1 ∙ q2 ∙ q3 ∙ q4)
                                  ]
                          ]
                  ]
            ]
      ]

  pub splice_between-cases :
      (first last : Entry) (es : List Entry) (log : Log)
      → ((splice_between bincode first last es log).1 ≡ log)
        ⊎ ((present : List (Bytes × Bytes)) × (rest : List Entry) × (is_contiguous es ≡ true)
            × (skip_present bincode present es ≡ ok rest)
            × ((splice_between bincode first last es log).1
                ≡ (splice_rest bincode last rest log).1))
  unfolding splice_between
  splice_between-cases first last es log =
      elim (read-cases (ensure (ltb 0 first.index && ltb 0 first.term)) _ log (ensure-same _ log)) [
        | inl same ↦ inl same
        | inr (_, _, q0) ↦ elim (read-cases (ensure (is_contiguous es)) _ log (ensure-same _ log)) [
          | inl same ↦ inl (q0 ∙ same)
          | inr (_, contiguous, q1) ↦
              elim (read-cases (ensure (has_rising_terms es)) _ log (ensure-same _ log)) [
                | inl same ↦ inl (q0 ∙ q1 ∙ same)
                | inr (_, _, q2) ↦ elim (splice_known first last es log) [
                  | inl same ↦ inl (q0 ∙ q1 ∙ q2 ∙ same)
                  | inr (present, rest, skipped, q3) ↦
                      inr (present, rest, ensure-true _ log contiguous, skipped, q0 ∙ q1 ∙ q2 ∙ q3)
                ]
              ]
        ]
      ]
