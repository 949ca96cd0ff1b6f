-- ===== src/Raft/Node/Leader/Step.antt =====
-- src/raft/node.rs: how a leader commits, and what it does with a message and with a tick.
use toydb.Prelude.{
  ℕ, zero, suc, Bool, true, false, Option, none, some, List, [], ◌∷◌, ◌++◌, map, ltb, leb, ◌==◌,
  if◌then◌else◌,
}
use toydb.Error.{Result, ok, err, panic, abort}
use toydb.Exec.{Exec, pure, lift, ◌>>=◌, ◌>>◌, for_each, ensure, self}
use toydb.Encoding.Bytes.{Bytes}
use toydb.Storage.Memory
use toydb.Raft.Log
use toydb.Raft.Log.{
  Log, Entry, Index, Term, NodeId, set_term_vote, scan_apply, on_engine, increment,
}
use toydb.Raft.Message.{
  Message, Envelope, RequestId, ReadSequence, Request, Status, Response, campaign,
  campaign_response, heartbeat, heartbeat_response, append, append_response, read, read_response,
  client_request, client_response,
}
use toydb.Raft.Node.Progress.{advance, advance_read, regress_next, quorum_value, cluster_size}
use toydb.Raft.Node.Raw.{
  Environment, RawNode, Follower, increment_ticks, on_log, on_state, term, random_election_timeout,
  send, send_via, broadcast, sorted_by_key,
}
use toydb.Raft.Node.Follower
use toydb.Raft.Node.Leader.{
  Leader, Write, Read, lookup, without, progress_of, set_progress, maybe_send_append, heartbeat_all,
  propose, maybe_read,
}

module _ (env : Environment) where
  open env use {bincode, State, get_applied_index}

  unfoldable pub into_follower : Leader → Term → Exec (RawNode env) Follower
  into_follower role new_term = do
    node ← self
    ensure (ltb (term env node) new_term)
    let writes : List Write = sorted_by_key (λ w. w.id) (map (λ w. w.1) role.writes)
    for_each writes λ w. send env w.from (client_response w.id (err abort))
    for_each (sorted_by_key (λ r. r.id) role.reads)
        λ r. send env r.from (client_response r.id (err abort))
    on_log env (set_term_vote bincode new_term none)
    timeout ← random_election_timeout env
    pure (Follower.new none timeout)

  -- The answer to a client, when the entry is a write of one.
  unfoldable pub respond_write : Option Write → Term → Result Bytes → Exec (RawNode env) (Unit {0})
  respond_write none t result = pure tt
  respond_write (some w) t result = do
    node ← self
    let answer = λ (response : Result Response).
        send_via env (record {
          from = node.id;
          term = t;
          to = w.from;
          message = client_response w.id response;
        })
    respond answer result
    where
      respond :
          (Result Response → Exec (RawNode env) (Unit {0}))
          → Result Bytes
          → Exec (RawNode env) (Unit {0})
      respond answer (ok b) = answer (ok (Response.write b))
      respond answer (err e) = answer (err e)
      respond answer panic = lift panic

  -- The outcome of the state machine as a value; a panic is none.
  unfoldable pub caught : Result Bytes → Result (Result Bytes)
  caught (ok b) = ok (ok b)
  caught (err e) = ok (err e)
  caught panic = panic

  unfoldable pub apply_caught : Entry → Exec (RawNode env) (Result Bytes)
  apply_caught e = on_state env λ s. let (r, after) = env.apply e s in (caught r, after)

  -- Applies committed entries, and answers the writes among them.
  unfoldable pub apply_entries :
      Term → List (Bytes × Bytes) → List (Index × Write) → Exec (RawNode env) (List (Index × Write))
  apply_entries t [] writes = pure writes
  apply_entries t ((_, v) ∷ scan) writes = do
    e ← lift (bincode.entries.decode v)
    result ← apply_caught e
    respond_write (lookup e.index writes) t result
    apply_entries t scan (without e.index writes)

  -- Whether the entry at the quorum's index is of this term: only then it is committed.
  unfoldable pub is_own : Term → Option Entry → Result Bool
  is_own t none = panic
  is_own t (some e) = ok (e.term == t)

  unfoldable pub commit_and_apply : Leader → Index → Exec (RawNode env) (Index × Leader)
  commit_and_apply role commit_index = do
    before ← self
    on_log env (Log.commit bincode commit_index)
    node ← self
    scan ← on_log env (scan_apply (get_applied_index node.state))
    writes ← apply_entries (term env node) scan role.writes
    let applied : Leader = record role { writes = writes }
    after ← self
    answered ←
        if before.log.commit_term == term env after then pure applied else maybe_read env applied
    pure (commit_index, answered)

  unfoldable pub maybe_commit_and_apply : Leader → Exec (RawNode env) (Index × Leader)
  maybe_commit_and_apply role = do
    node ← self
    let matches : List ℕ = map (λ q. q.1.match_index) role.progress ++ (node.log.last_index ∷ [])
    commit_index ← lift (quorum_value node.peers matches)
    if leb commit_index node.log.commit_index then pure (node.log.commit_index, role) else do
      found ← on_log env (Log.get bincode commit_index)
      own ← lift (is_own (term env node) found)
      if own then commit_and_apply role commit_index else pure (node.log.commit_index, role)

  abbrev then_if : Bool → (Leader → Exec (RawNode env) Leader) → Leader → Exec (RawNode env) Leader
  then_if b act role = if b then act role else pure role

  abbrev committing : Leader → Exec (RawNode env) Leader
  committing role = maybe_commit_and_apply role >>= λ r. pure r.1

  unfoldable pub step_heartbeat_response :
      Leader → Envelope → Index → ReadSequence → Exec (RawNode env) Leader
  step_heartbeat_response role msg match_index read_seq = do
    node ← self
    ensure (leb match_index node.log.last_index)
    ensure (leb read_seq role.read_seq)
    p ← progress_of env role msg.from
    let (confirmed, p_read) = advance_read read_seq p
    answered ← then_if confirmed (maybe_read env) (set_progress env msg.from p_read role)
    probed ← if match_index == 0 then probe node.log.last_index answered else pure answered
    q ← progress_of env probed msg.from
    let (advanced, q_match) = advance match_index q
    then_if advanced committing (set_progress env msg.from q_match probed)
    where
      probe : Index → Leader → Exec (RawNode env) Leader
      probe last_index r = do
        p ← progress_of env r msg.from
        let (_, p_next) = regress_next last_index p
        maybe_send_append env (set_progress env msg.from p_next r) msg.from true

  unfoldable pub step_matched : Leader → Envelope → Index → Exec (RawNode env) Leader
  step_matched role msg match_index = do
    node ← self
    ensure (leb match_index node.log.last_index)
    p ← progress_of env role msg.from
    let (advanced, q) = advance match_index p
    committed ← then_if advanced committing (set_progress env msg.from q role)
    maybe_send_append env committed msg.from false

  unfoldable pub step_rejected : Leader → Envelope → Index → Exec (RawNode env) Leader
  step_rejected role msg reject_index = do
    node ← self
    ensure (leb reject_index node.log.last_index)
    p ← progress_of env role msg.from
    if leb reject_index p.match_index then pure role else do
      let (regressed, q) = regress_next reject_index p
      then_if regressed (λ r. maybe_send_append env r msg.from true)
          (set_progress env msg.from q role)

  unfoldable pub step_append_response :
      Leader → Envelope → Index → Index → Exec (RawNode env) Leader
  step_append_response role msg (suc m) zero = step_matched role msg (suc m)
  step_append_response role msg zero (suc r) = step_rejected role msg (suc r)
  step_append_response role msg zero zero = lift panic
  step_append_response role msg (suc m) (suc r) = lift panic

  unfoldable pub step_read_response : Leader → Envelope → ReadSequence → Exec (RawNode env) Leader
  step_read_response role msg seq = do
    p ← progress_of env role msg.from
    let (confirmed, q) = advance_read seq p
    then_if confirmed (maybe_read env) (set_progress env msg.from q role)

  unfoldable pub status : Leader → Exec (RawNode env) Status
  status role = do
    storage ← on_log env (on_engine Memory.status)
    node ← self
    pure (record {
      leader = node.id;
      term = term env node;
      match_index =
          map (λ q. (q.0, q.1.match_index)) role.progress ++ ((node.id, node.log.last_index) ∷ []);
      commit_index = node.log.commit_index;
      applied_index = get_applied_index node.state;
      storage = storage;
    })

  unfoldable pub step_request : Leader → Envelope → RequestId → Request → Exec (RawNode env) Leader
  step_request role msg id (Request.write command) = do
    (index, sent) ← propose env role (some command)
    let w : Write = record { from = msg.from; id = id }
    let written : Leader = record sent { writes = (index, w) ∷ without index sent.writes }
    node ← self
    then_if (cluster_size node.peers == 1) committing written
  step_request role msg id (Request.read command) = do
    let seq : ReadSequence = increment role.read_seq
    let r : Read = record { seq = seq; from = msg.from; id = id; command = command }
    let queued : Leader = record role { read_seq = seq; reads = role.reads ++ (r ∷ []) }
    broadcast env (Message.read seq)
    node ← self
    then_if (cluster_size node.peers == 1) (maybe_read env) queued
  step_request role msg id Request.status = do
    answer ← status role
    send env msg.from (client_response id (ok (Response.status answer)))
    pure role

  unfoldable pub step_message : Leader → Envelope → Message → Exec (RawNode env) Leader
  step_message role msg (heartbeat_response match_index read_seq) =
      step_heartbeat_response role msg match_index read_seq
  step_message role msg (append_response match_index reject_index) =
      step_append_response role msg match_index reject_index
  step_message role msg (read_response seq) = step_read_response role msg seq
  step_message role msg (client_request id request) = step_request role msg id request
  step_message role msg (campaign _ _) = send env msg.from (campaign_response false) >> pure role
  step_message role msg (campaign_response _) = pure role
  step_message role msg (heartbeat _ _ _) = lift panic
  step_message role msg (append _ _ _) = lift panic
  step_message role msg (read _) = lift panic
  step_message role msg (client_response _ _) = lift panic

  unfoldable pub tick : Leader → Exec (RawNode env) Leader
  tick role = do
    node ← self
    let ticked : Leader = record role { since_heartbeat = increment_ticks role.since_heartbeat }
    then_if (leb node.opts.heartbeat_interval ticked.since_heartbeat) (heartbeat_all env) ticked
