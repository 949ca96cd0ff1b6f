-- ===== src/Raft/Log.antt =====
-- src/raft/log.rs: the log of one node, in an engine, with the counters that it keeps in memory.
pub mod Key
pub mod Stored
pub mod Outcome
pub mod Spliced
pub mod Safety
pub mod Recovery
pub mod Tests
pub mod History
pub mod Splice
use toydb.Prelude.{
  ℕ, zero, suc, ◌+◌, ◌-◌, ◌%◌, ◌<◌, Bool, true, false, not, ◌&&◌, ◌||◌, Option, none, some, List,
  [], ◌∷◌, ltb, leb, ◌==◌, if◌then◌else◌, last?,
}
use toydb.Error.{Result, ok, err, panic}
use toydb.Error
use toydb.Exec.{Exec, pure, lift, reads, ◌>>=◌, ◌>>◌, for_each, when, ensure, put, self}
use toydb.Encoding.Bytes.{Bytes, Range, Bound, included, excluded, unbounded, eq_bytes}
use toydb.Encoding.Codec.{Codec}
use toydb.Encoding.Keycode.{u64_mod}
use toydb.Storage.BTreeMap
use toydb.Storage.Memory
use toydb.Storage.Memory.{Memory}
use toydb.Raft.Log.Key.{entry, term_vote, commit_index, encode}

abbrev pub Index : Type 0
Index = ℕ

abbrev pub Term : Type 0
Term = ℕ

abbrev pub NodeId : Type 0
NodeId = ℕ

pub record Entry : Type 0 where
  pub index : Index
  pub term : Term
  pub command : Option Bytes

-- A 64-bit counter wraps around.
abbrev pub increment : ℕ → ℕ
increment n = (n + 1) % u64_mod

pub record Log : Type 0 where
  pub engine : Memory
  pub term : Term
  pub vote : Option NodeId
  pub last_index : Index
  pub last_term : Term
  pub commit_index : Index
  pub commit_term : Term
  pub fsync : Bool

abbrev pub Always : {A : Type 0} → A → Type 0
Always _ = Unit {0}

-- What the log stores, by the encoding of the bincode crate.
pub record Bincode : Type 0 where
  pub entries : Codec Entry Always
  pub votes : Codec (Term × Option NodeId) Always
  pub commits : Codec (Index × Term) Always

unfoldable pub eq_command : Option Bytes → Option Bytes → Bool
eq_command none none = true
eq_command (some a) (some b) = eq_bytes a b
eq_command _ _ = false

unfoldable pub eq_vote : Option NodeId → Option NodeId → Bool
eq_vote none none = true
eq_vote (some a) (some b) = a == b
eq_vote _ _ = false

abbrev pub is_none : {A : Type 0} → Option A → Bool
is_none none = true
is_none (some _) = false

-- An operation of the engine that the log owns.
unfoldable pub on_engine : {A : Type 0} → Exec Memory A → Exec Log A
on_engine op log = let (r, engine) = op log.engine in (r, record log { engine = engine })

unfoldable pub get_commit_index : Log → Index × Term
get_commit_index log = (log.commit_index, log.commit_term)

unfoldable pub get_last_index : Log → Index × Term
get_last_index log = (log.last_index, log.last_term)

unfoldable pub get_term_vote : Log → Term × Option NodeId
get_term_vote log = (log.term, log.vote)

unfoldable pub enable_fsync : Bool → Exec Log (Unit {0})
enable_fsync fsync log = put (record log { fsync = fsync }) log

-- `scan(range)`: the bounds are log indexes.
unfoldable pub entry_range : Bound Index → Bound Index → Range
entry_range from to = (start from, end to)
  where
    start : Bound Index → Bound Bytes
    start (excluded i) = excluded (encode (entry i))
    start (included i) = included (encode (entry i))
    start unbounded = included (encode (entry 0))

    end : Bound Index → Bound Bytes
    end (excluded i) = excluded (encode (entry i))
    end (included i) = included (encode (entry i))
    end unbounded = included (encode (entry (u64_mod - 1)))

-- The iterator decodes an entry when it is reached, so it is modelled by the raw entries.
unfoldable pub scan : Bound Index → Bound Index → Exec Log (List (Bytes × Bytes))
scan from to = on_engine (Memory.scan (entry_range from to))

unfoldable pub scan_apply : Index → Exec Log (List (Bytes × Bytes))
scan_apply applied_index log =
    if leb log.commit_index applied_index
    then pure [] log
    else scan (included (increment applied_index)) (included log.commit_index) log

-- `entries.windows(2).all(|w| w[0].index + 1 == w[1].index)`
unfoldable pub is_contiguous : List Entry → Bool
is_contiguous [] = true
is_contiguous (a ∷ []) = true
is_contiguous (a ∷ b ∷ es) = increment a.index == b.index && is_contiguous (b ∷ es)

-- `entries.windows(2).all(|w| w[0].term <= w[1].term)`
unfoldable pub has_rising_terms : List Entry → Bool
has_rising_terms [] = true
has_rising_terms (a ∷ []) = true
has_rising_terms (a ∷ b ∷ es) = leb a.term b.term && has_rising_terms (b ∷ es)

-- Whether the entry before the first one allows it.
unfoldable pub touches : Option Entry → Entry → Bool
touches (some base) first = leb base.term first.term
touches none first = first.index == 1

abbrev pub last_or : Entry → List Entry → Entry
last_or e [] = e
last_or e (f ∷ es) = last_or f es

-- The deletion of the entries from `index` on, `n` of them.
unfoldable pub delete_from : ℕ → Index → Exec Log (Unit {0})
delete_from zero index = pure tt
delete_from (suc n) index =
    on_engine (Memory.delete (encode (entry index))) >> delete_from n (index + 1)

module _ (bincode : Bincode) where
  open bincode use {entries, votes, commits}

  unfoldable pub decode_or : {A : Type 0} → (Bytes → Result A) → A → Option Bytes → Result A
  decode_or decode d none = ok d
  decode_or decode d (some v) = decode v

  unfoldable pub last_position : Option (Bytes × Bytes) → Result (Index × Term)
  last_position none = ok (0, 0)
  last_position (some (_, v)) = Error.◌>>=◌ (entries.decode v) λ e. ok (e.index, e.term)

  unfoldable pub new : Exec Memory Log
  new = do
    stored_vote ← Memory.get (encode term_vote)
    (term, vote) ← lift (decode_or votes.decode (0, none) stored_vote)
    scan ← Memory.scan (entry_range (included 0) (included (u64_mod - 1)))
    (last_index, last_term) ← lift (last_position (last? scan))
    stored_commit ← Memory.get (encode Key.commit_index)
    (committed, commit_term) ← lift (decode_or commits.decode (0, 0) stored_commit)
    engine ← self
    pure (record {
      engine = engine;
      term = term;
      vote = vote;
      last_index = last_index;
      last_term = last_term;
      commit_index = committed;
      commit_term = commit_term;
      fsync = true;
    })

  unfoldable pub set_term_vote : Term → Option NodeId → Exec Log (Unit {0})
  set_term_vote term vote = do
    log ← self
    ensure (ltb 0 term)
    ensure (leb log.term term)
    ensure (ltb log.term term || is_none log.vote || eq_vote vote log.vote)
    if term == log.term && eq_vote vote log.vote then pure tt else do
      on_engine (Memory.set (encode term_vote) (votes.encode (term, vote)))
      on_engine Memory.flush
      stored ← self
      put (record stored { term = term; vote = vote })

  unfoldable pub append : Option Bytes → Exec Log Index
  append command = do
    log ← self
    ensure (ltb 0 log.term)
    let e : Entry = record { index = increment log.last_index; term = log.term; command = command }
    on_engine (Memory.set (encode (entry (increment log.last_index))) (entries.encode e))
    when log.fsync (on_engine Memory.flush)
    stored ← self
    put (record stored { last_index = increment log.last_index; last_term = log.term })
    pure (increment log.last_index)

  unfoldable pub decode_entry : Option Bytes → Result (Option Entry)
  decode_entry none = ok none
  decode_entry (some v) = Error.◌>>=◌ (entries.decode v) λ e. ok (some e)

  unfoldable pub get : Index → Exec Log (Option Entry)
  get index = do stored ← on_engine (Memory.get (encode (entry index))); lift (decode_entry stored)

  unfoldable pub commit_to : Index → Option Entry → Exec Log Index
  commit_to index none = lift panic
  commit_to index (some e) = do
    log ← self
    ensure (leb log.commit_index e.index)
    if e.index == log.commit_index then pure index else do
      on_engine (Memory.set (encode Key.commit_index) (commits.encode (index, e.term)))
      stored ← self
      put (record stored { commit_index = index; commit_term = e.term })
      pure index

  unfoldable pub commit : Index → Exec Log Index
  commit index = do found ← get index; commit_to index found

  abbrev pub has_term : Term → Option Entry → Bool
  has_term term none = false
  has_term term (some e) = e.term == term

  unfoldable pub has_stored : Index → Term → Exec Log Bool
  has_stored index term = do found ← get index; pure (has_term term found)

  unfoldable pub has : Index → Term → Exec Log Bool
  has index term log =
      if index == 0 || ltb log.last_index index
      then pure false log
      else if index == log.last_index && term == log.last_term
      then pure true log
      else has_stored index term log

  -- The loop of `splice` that skips entries which the log has already.
  unfoldable pub skip_present : List (Bytes × Bytes) → List Entry → Result (List Entry)
  skip_present [] es = ok es
  skip_present ((_, v) ∷ scan) [] = Error.◌>>=◌ (entries.decode v) λ _. panic
  skip_present ((_, v) ∷ scan) (e ∷ es) = Error.◌>>=◌ (entries.decode v) λ present.
      if not (present.index == e.index)
      then panic
      else if not (present.term == e.term)
      then ok (e ∷ es)
      else if not (eq_command present.command e.command)
      then panic
      else skip_present scan es

  unfoldable pub write_entries : List Entry → Exec Log (Unit {0})
  write_entries es =
      for_each es λ e. on_engine (Memory.set (encode (entry e.index)) (entries.encode e))

  -- The part of `splice` after the skipped entries; `last` is the last of the given entries.
  unfoldable pub splice_rest : Entry → List Entry → Exec Log Index
  splice_rest last [] = do log ← self; pure log.last_index
  splice_rest last (first ∷ es) = do
    log ← self
    ensure (ltb log.commit_index first.index)
    write_entries (first ∷ es)
    delete_from (log.last_index + 1 - increment last.index) (increment last.index)
    when log.fsync (on_engine Memory.flush)
    stored ← self
    put (record stored { last_index = last.index; last_term = last.term })
    pure last.index

  unfoldable pub splice_between : Entry → Entry → List Entry → Exec Log Index
  splice_between first last es = do
    ensure (ltb 0 first.index && ltb 0 first.term)
    ensure (is_contiguous es)
    ensure (has_rising_terms es)
    log ← self
    ensure (leb last.term log.term)
    base ← get (first.index - 1)
    ensure (touches base first)
    present ← scan (included first.index) (included last.index)
    rest ← lift (skip_present present es)
    splice_rest last rest

  unfoldable pub splice : List Entry → Exec Log Index
  splice [] log = pure log.last_index log
  splice (e ∷ es) log = splice_between e (last_or e es) (e ∷ es) log
