-- ===== src/Raft/Node/Leader.antt =====
-- src/raft/node.rs: a leader, which replicates its log, commits what a quorum has, and answers
-- the clients.
pub mod Step
use toydb.Prelude.{
  ℕ, zero, suc, ◌+◌, ◌-◌, ◌%◌, ◌≡◌, Bool, true, false, not, ◌&&◌, ◌||◌, Option, none, some, List,
  [], ◌∷◌, ◌++◌, map, last?, take, ltb, leb, ◌==◌, if◌then◌else◌, length,
}
use toydb.Error.{Result, ok, err, panic, abort}
use toydb.Error
use toydb.Exec.{Exec, pure, lift, raise, ◌>>=◌, ◌>>◌, for_each, when, ensure, put, self}
use toydb.Encoding.Bytes.{Bytes, included, unbounded}
use toydb.Encoding.Keycode.{u64_mod}
use toydb.Storage.Memory
use toydb.Raft.Log
use toydb.Raft.Log.{
  Log, Entry, Index, Term, NodeId, increment, set_term_vote, scan_apply, on_engine,
}
use toydb.Raft.Message.{
  Message, Envelope, RequestId, ReadSequence, Status, Response, heartbeat, append, client_response,
}
use toydb.Raft.Node.Progress.{Progress, quorum_value}
use toydb.Raft.Node.Raw.{
  Environment, RawNode, Follower, Ticks, on_log, on_state, term, random_election_timeout, send,
  send_via, broadcast, sorted, sorted_by_key,
}

pub record Write : Type 0 where
  pub from : NodeId
  pub id : RequestId

pub record Read : Type 0 where
  pub seq : ReadSequence
  pub from : NodeId
  pub id : RequestId
  pub command : Bytes

-- The maps are association lists, with one pair for a key.
pub record Leader : Type 0 where
  pub progress : List (NodeId × Progress)
  pub writes : List (Index × Write)
  pub reads : List Read
  pub read_seq : ReadSequence
  pub since_heartbeat : Ticks

unfoldable pub lookup : {A : Type 0} → ℕ → List (ℕ × A) → Option A
lookup key [] = none
lookup key ((k, a) ∷ xs) = let rest = lookup key xs in if key == k then some a else rest

-- The other pairs.
unfoldable pub without : {A : Type 0} → ℕ → List (ℕ × A) → List (ℕ × A)
without key [] = []
without key ((k, a) ∷ xs) = let rest = without key xs in if key == k then rest else (k, a) ∷ rest

unfoldable pub replace : {A : Type 0} → ℕ → A → List (ℕ × A) → List (ℕ × A)
replace key b [] = []
replace key b ((k, a) ∷ xs) =
    let rest = replace key b xs in if key == k then (k, b) ∷ xs else (k, a) ∷ rest

unfoldable pub new : List NodeId → Index → Leader
new peers last_index = record {
  progress =
      map (λ p. (p, record { next_index = increment last_index; match_index = 0; read_seq = 0 }))
        peers;
  writes = [];
  reads = [];
  read_seq = 0;
  since_heartbeat = 0;
}

unfoldable pub decode_all :
    {A : Type 0} → (Bytes → Result A) → List (Bytes × Bytes) → Result (List A)
decode_all decode [] = ok []
decode_all decode ((_, v) ∷ items) =
    Error.◌>>=◌ (decode v) λ a. Error.◌>>=◌ (decode_all decode items) λ rest. ok (a ∷ rest)

-- A peer's progress when entries are sent to it: the last of them is assumed to be accepted.
unfoldable pub sent : Option Entry → Progress → Progress
sent none p = p
sent (some last) p = record p { next_index = increment last.index }

module _ (env : Environment) where
  open env use {bincode, State, get_applied_index}

  -- `self.progress(id)`
  unfoldable pub progress_of : Leader → NodeId → Exec (RawNode env) Progress
  progress_of role id = lift (found (lookup id role.progress))
    where
      found : Option Progress → Result Progress
      found none = panic
      found (some p) = ok p

  unfoldable pub set_progress : NodeId → Progress → Leader → Leader
  set_progress id p role = record role { progress = replace id p role.progress }

  -- Whether nothing is to be sent to a peer: it has everything, or waits for new entries.
  unfoldable pub is_current : Progress → Index → Bool → Bool
  is_current p last_index probe =
      p.match_index == last_index
      || ltb last_index p.next_index && not (probe && ltb (increment p.match_index) p.next_index)

  abbrev position_of : Option Entry → Result (Index × Term)
  position_of none = panic
  position_of (some e) = ok (e.index, e.term)

  unfoldable pub base_of : Index → Exec (RawNode env) (Index × Term)
  base_of next_index =
      if next_index == 1
      then pure (0, 0)
      else on_log env (Log.get bincode (next_index - 1)) >>= λ e. lift (position_of e)

  -- `scan(next_index..).take(max_append_entries).try_collect()`, or nothing for a probe.
  unfoldable pub entries_from : Index → Bool → Exec (RawNode env) (List Entry)
  entries_from next_index probe = do
    node ← self
    if probe then pure [] else do
      scan ← on_log env (Log.scan (included next_index) unbounded)
      lift (decode_all bincode.entries.decode (take node.opts.max_append_entries scan))

  unfoldable pub send_append : Leader → NodeId → Progress → Bool → Exec (RawNode env) Leader
  send_append role peer p probe = do
    base ← base_of p.next_index
    entries ← entries_from p.next_index probe
    send env peer (append base.0 base.1 entries)
    pure (set_progress peer (sent (last? entries) p) role)

  unfoldable pub maybe_send_append : Leader → NodeId → Bool → Exec (RawNode env) Leader
  maybe_send_append role peer probe = do
    node ← self
    p ← progress_of role peer
    ensure (not (p.next_index == 0))
    ensure (ltb p.match_index p.next_index)
    ensure (leb p.match_index node.log.last_index)
    ensure (leb p.next_index (increment node.log.last_index))
    if is_current p node.log.last_index probe
        then pure role
        else send_append role peer p (probe && ltb (increment p.match_index) p.next_index)

  unfoldable pub heartbeat_all : Leader → Exec (RawNode env) Leader
  heartbeat_all role = do
    node ← self
    ensure (node.log.last_term == term env node)
    broadcast env (heartbeat node.log.last_index node.log.commit_index role.read_seq)
    pure (record role { since_heartbeat = 0 })

  -- The loop of `propose`, over the peers that wait for the new entry.
  unfoldable pub propose_to : Index → List NodeId → Leader → Exec (RawNode env) Leader
  propose_to index [] role = pure role
  propose_to index (peer ∷ peers) role = do
    p ← progress_of role peer
    sent ← if index == p.next_index then maybe_send_append role peer false else pure role
    propose_to index peers sent

  unfoldable pub propose : Leader → Option Bytes → Exec (RawNode env) (Index × Leader)
  propose role command = do
    index ← on_log env (Log.append bincode command)
    node ← self
    sent ← propose_to index (sorted node.peers) role
    pure (index, sent)

  -- The reads at the front whose sequence number a quorum has confirmed.
  unfoldable pub read_confirmed : ReadSequence → List Read → Exec (RawNode env) (List Read)
  read_confirmed quorum_read_seq [] = pure []
  read_confirmed quorum_read_seq (r ∷ reads) =
      let rest = read_confirmed quorum_read_seq reads in
      if ltb quorum_read_seq r.seq then pure (r ∷ reads) else do
        node ← self
        response ← responded (env.read r.command node.state)
        send env r.from (client_response r.id response)
        rest
    where
      responded : Result Bytes → Exec (RawNode env) (Result Response)
      responded (ok b) = pure (ok (Response.read b))
      responded (err e) = pure (err e)
      responded panic = lift panic

  unfoldable pub maybe_read : Leader → Exec (RawNode env) Leader
  maybe_read role = do
    node ← self
    if length role.reads == 0
          || ltb node.log.commit_term (term env node)
          || ltb (get_applied_index node.state) node.log.commit_index
        then pure role
        else do
          let seqs : List ℕ = map (λ q. q.1.read_seq) role.progress ++ (role.read_seq ∷ [])
          quorum_read_seq ← lift (quorum_value node.peers seqs)
          reads ← read_confirmed quorum_read_seq role.reads
          pure (record role { reads = reads })
