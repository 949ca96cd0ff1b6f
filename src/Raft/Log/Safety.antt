-- ===== src/Raft/Log/Safety.antt =====
-- src/raft/log.rs: what no operation on the log does, whatever its outcome. A committed entry
-- stays, the term does not fall, and a vote that was cast in a term is not changed.
use toydb.Prelude.{
  ◌+◌, ◌<◌, ◌≤◌, ◌≡◌, ◌≢◌, refl, sym, ap, subst, ◌∙◌, Bool-cases, true, Option, none, some, arith,
  ==_iff, ◌⊎◌, inl, inr,
}
use toydb.Error.{ok, >>=-eq-ok}
use toydb.Encoding.Bytes.{Bytes}
use toydb.Encoding.Keycode.{u64_mod}
use toydb.Exec.{read-cases}
use toydb.Storage.BTreeMap
use toydb.Storage.BTreeMap.Lookup.{get-insert_self, get-insert_ne}
use toydb.Storage.Memory.{Memory}
use toydb.Storage.Memory
use toydb.Raft.Log.Key.{entry, encode, term_vote-ne, commit_index-ne}
use toydb.Raft.Log.Stored.{stored, stored-insert}
use toydb.Raft.Log.Outcome.{
  voted, may_vote, set_term_vote-cases, appended, append-cases, committed, commit_to-cases,
  get-same,
}
use toydb.Raft.Log.{
  decode_entry, on_engine, Log, Entry, Bincode, Index, Term, NodeId, increment, is_none, eq_vote,
  set_term_vote, append, commit, commit_to, get, increment,
}

eq_vote→eq : (v w : Option NodeId) → eq_vote v w ≡ true → v ≡ w
unfolding eq_vote
eq_vote→eq none none h = refl
eq_vote→eq none (some b) h = absurd (cc h)
eq_vote→eq (some a) none h = absurd (cc h)
eq_vote→eq (some a) (some b) h = ap some ((==_iff a b).0 h)

is_none→eq : (v : Option NodeId) → is_none v ≡ true → v ≡ none
is_none→eq none h = refl
is_none→eq (some a) h = absurd (cc h)

voted-vote :
    (t : Term) (v : Option NodeId) (log : Log)
    → may_vote t v log ≡ true
    → log.term ≡ t
    → (log.vote ≡ none) ⊎ (v ≡ log.vote)
voted-vote t v log may same = elim (Bool-cases (is_none log.vote)) [
  | inl fresh ↦ inl (is_none→eq log.vote fresh)
  | inr cast ↦ elim (Bool-cases (eq_vote v log.vote)) [
    | inl again ↦ inr (eq_vote→eq v log.vote again)
    | inr other ↦ absurd (ground (arith, may, same, cast, other))
  ]
]

module _ (bincode : Bincode) where
  open bincode use {entries, votes, commits}

  -- The counters agree with the stored entries, each of which is under its index.
  pub record Inv (log : Log) : Type 0 where
    pub fits : log.last_index + 1 < u64_mod
    pub bounded : log.commit_index ≤ log.last_index
    pub placed :
        (i : Index) (v : Bytes) (e : Entry)
        → i < u64_mod
        → stored i log.engine ≡ some v
        → entries.decode v ≡ ok e
        → (e.index ≡ i) × (i ≤ log.last_index)

  pub record Advances (a b : Log) : Type 0 where
    pub term : a.term ≤ b.term
    pub vote : a.term ≡ b.term → (a.vote ≡ none) ⊎ (b.vote ≡ a.vote)
    pub commit : a.commit_index ≤ b.commit_index
    pub kept : (i : Index) → i ≤ a.commit_index → stored i b.engine ≡ stored i a.engine

  pub Advances-refl : (a : Log) → Advances a a
  Advances-refl a = record {
    term = omega arith;
    vote = λ _. inr refl;
    commit = omega arith;
    kept = λ i h. refl;
  }

  pub Advances-trans : (a b c : Log) → Advances a b → Advances b c → Advances a c
  Advances-trans a b c p q = record {
    term = omega (arith, p.term, q.term);
    vote = λ same. elim (p.vote (omega (arith, p.term, q.term, same))) [
      | inl fresh ↦ inl fresh
      | inr kept ↦ elim (q.vote (omega (arith, p.term, q.term, same))) [
        | inl fresh ↦ inl (sym kept ∙ fresh)
        | inr again ↦ inr (again ∙ kept)
      ]
    ];
    commit = omega (arith, p.commit, q.commit);
    kept = λ i h. q.kept i (omega (arith, h, p.commit)) ∙ p.kept i h;
  }

  abbrev pub Safe : Log → Log → Type 0
  Safe a b = Inv b × Advances a b

  pub Safe-same : (a b : Log) → Inv a → b ≡ a → Safe a b
  Safe-same a b inv h = subst (Safe a) (sym h) (inv, Advances-refl a)

  -- A counter's key is not an entry's.
  stored-other :
      (k v : Bytes) (i : Index) (m : Memory)
      → (k ≢ encode (entry i))
      → stored i (BTreeMap.insert k v m) ≡ stored i m
  stored-other k v i m h = get-insert_ne k (encode (entry i)) v m h

  pub decoded :
      (after : Option Bytes) (v : Bytes) (e f : Entry)
      → after ≡ some (entries.encode e)
      → after ≡ some v
      → entries.decode v ≡ ok f
      → f ≡ e
  decoded after v e f h s d = cc (h, s, d, entries.decode-encode e tt)

  pub set_term_vote-Safe :
      (t : Term) (v : Option NodeId) (log : Log)
      → Inv log
      → Safe log (set_term_vote bincode t v log).1
  set_term_vote-Safe t v log inv = elim (set_term_vote-cases bincode t v log) [
    | inl same ↦ Safe-same _ _ inv (ap (λ p. p.1) same)
    | inr (inl (same, _, _)) ↦ Safe-same _ _ inv (ap (λ p. p.1) same)
    | inr (inr (changed, later, may)) ↦ subst (Safe log) (sym (ap (λ p. p.1) changed)) (
      voted_inv,
      record {
        term = later;
        vote = voted-vote t v log may;
        commit = omega arith;
        kept = λ i h. untouched i;
      },
    )
  ]
    where
      untouched : (i : Index) → stored i (voted bincode t v log).engine ≡ stored i log.engine
      untouched i = stored-other _ _ i log.engine (term_vote-ne i)

      voted_inv : Inv (voted bincode t v log)
      voted_inv = record {
        fits = inv.fits;
        bounded = inv.bounded;
        placed = λ i w e h s d. inv.placed i w e h (sym (untouched i) ∙ s) d;
      }

  pub append-Safe :
      (command : Option Bytes) (log : Log)
      → Inv log
      → log.last_index + 2 < u64_mod
      → Safe log (append bincode command log).1
  append-Safe command log inv room = elim (append-cases bincode command log) [
    | inl (same, _) ↦ Safe-same _ _ inv (ap (λ p. p.1) same)
    | inr changed ↦ subst (Safe log) (sym (ap (λ p. p.1) changed)) (
      appended_inv,
      record {
        term = omega arith;
        vote = λ _. inr refl;
        commit = omega arith;
        kept = λ i h. elim (at i (omega (arith, h, inv.bounded, inv.fits))) [
          | inl same ↦ absurd (omega (arith, same, h, inv.bounded, inv.fits))
          | inr other ↦ other
        ];
      },
    )
  ]
    where
      e : Entry
      e = record { index = increment log.last_index; term = log.term; command = command }

      at :
          (i : Index)
          → i < u64_mod
          → (e.index ≡ i) ⊎ (stored i (appended bincode command log).engine ≡ stored i log.engine)
      at i h = stored-insert bincode e i log.engine (omega (arith, inv.fits)) h

      placed_at :
          (i : Index) (v : Bytes) (f : Entry)
          → i < u64_mod
          → stored i (appended bincode command log).engine ≡ some v
          → entries.decode v ≡ ok f
          → (f.index ≡ i) × (i ≤ increment log.last_index)
      placed_at i v f h s d = elim (at i h) [
        | inl same ↦
            let self : stored i (appended bincode command log).engine ≡ some (entries.encode e) =
              subst (λ x. stored x (appended bincode command log).engine ≡ some (entries.encode e))
                same (get-insert_self (encode (entry e.index)) (entries.encode e) log.engine) in
            let index = ap (λ (g : Entry). g.index) (decoded _ v e f self s d) in
            (index ∙ same, omega (arith, same))
        | inr other ↦
            let (q, b) = inv.placed i v f h (sym other ∙ s) d in (q, omega (arith, b, inv.fits))
      ]

      appended_inv : Inv (appended bincode command log)
      appended_inv = record {
        fits = omega (arith, room);
        bounded = omega (arith, inv.bounded, inv.fits);
        placed = placed_at;
      }

  decode_entry-some :
      (found : Option Bytes) (e : Entry)
      → decode_entry bincode found ≡ ok (some e)
      → (v : Bytes) × (found ≡ some v) × (entries.decode v ≡ ok e)
  unfolding decode_entry
  decode_entry-some none e h = absurd (cc h)
  decode_entry-some (some v) e h =
      let (f, d, q) = >>=-eq-ok (entries.decode v) (λ f. ok (some f)) h in (v, refl, cc (d, q))

  get-found :
      (index : Index) (e : Entry) (log : Log)
      → (get bincode index log).0 ≡ ok (some e)
      → (v : Bytes) × (stored index log.engine ≡ some v) × (entries.decode v ≡ ok e)
  unfolding get on_engine Memory.get
  get-found index e log h = decode_entry-some _ e h

  commit-found :
      (index : Index) (e : Entry) (log : Log)
      → Inv log
      → index < u64_mod
      → (get bincode index log).0 ≡ ok (some e)
      → log.commit_index ≤ e.index
      → Safe log (committed bincode index e log)
  commit-found index e log inv h found order =
      let (v, s, d) = get-found index e log found in
      let (same, last) = inv.placed index v e h s d in
      let untouched = λ (i : Index). stored-other _ _ i log.engine (commit_index-ne i) in
      (
        record {
          fits = inv.fits;
          bounded = last;
          placed = λ i w f k u. inv.placed i w f k (sym (untouched i) ∙ u);
        },
        record {
          term = omega arith;
          vote = λ _. inr refl;
          commit = omega (arith, same, order);
          kept = λ i k. untouched i;
        },
      )

  pub commit-Safe :
      (index : Index) (log : Log)
      → Inv log
      → index < u64_mod
      → Safe log (commit bincode index log).1
  unfolding commit
  commit-Safe index log inv h =
      elim (read-cases (get bincode index) (commit_to bincode index) log
        (get-same bincode index log)) [
          | inl same ↦ Safe-same _ _ inv same
          | inr (found, read, q) ↦ elim (commit_to-cases bincode index found log) [
            | inl same ↦ Safe-same _ _ inv (q ∙ ap (λ p. p.1) same)
            | inr (inl same) ↦ Safe-same _ _ inv (q ∙ ap (λ p. p.1) same)
            | inr (inr (e, is_e, order, changed)) ↦
                subst (Safe log) (sym (q ∙ ap (λ p. p.1) changed))
                  (commit-found index e log inv h (read ∙ ap ok is_e) order)
          ]
        ]
