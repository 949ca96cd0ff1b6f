-- ===== src/Raft/Node/Follower.antt =====
-- src/raft/node.rs: a follower, which takes entries from a leader and forwards requests to it.
pub mod Changes
pub mod Vote
use toydb.Prelude.{
  ℕ, zero, suc, ◌+◌, ◌-◌, ◌%◌, ◌≡◌, min, Bool, true, false, not, ◌&&◌, ◌||◌, Option, none, some,
  List, [], ◌∷◌, ◌++◌, first?, last?, ltb, leb, ◌==◌, if◌then◌else◌,
}
use toydb.Error.{Result, ok, err, panic, abort, invalid_input}
use toydb.Exec.{Exec, pure, lift, raise, ◌>>=◌, ◌>>◌, for_each, when, ensure, put, self}
use toydb.Encoding.Keycode.{u64_mod}
use toydb.Raft.Log
use toydb.Raft.Log.{
  Log, Entry, Index, Term, NodeId, increment, get_last_index, get_term_vote, set_term_vote, eq_vote,
  is_none,
}
use toydb.Raft.Message.{
  Message, Envelope, RequestId, ReadSequence, Request, Response, campaign, campaign_response,
  heartbeat, heartbeat_response, append, append_response, read, read_response, client_request,
  client_response,
}
use toydb.Raft.Node.Raw.{
  Environment, RawNode, Follower, Candidate, Ticks, Options, increment_ticks, on_log, term,
  random_election_timeout, send, sorted, contains, insert, remove, maybe_apply,
}
use toydb.Raft.Node.Candidate

unfoldable pub new : Option NodeId → Ticks → Follower
new leader election_timeout = record {
  leader = leader;
  leader_seen = 0;
  election_timeout = election_timeout;
  forwarded = [];
}

-- Whether the vote of this term has gone to another node.
unfoldable pub voted_other : Option NodeId → NodeId → Bool
voted_other none candidate = false
voted_other (some vote) candidate = not (candidate == vote)

-- Whether this log is newer than a candidate's.
unfoldable pub is_newer : Log → Index → Term → Bool
is_newer log last_index last_term =
    ltb last_term log.last_term || log.last_term == last_term && ltb last_index log.last_index

module _ (env : Environment) where
  open env use {bincode}

  unfoldable pub create : Exec (RawNode env) Follower
  create = do
    node ← self
    if contains node.id node.peers
        then raise invalid_input
        else do timeout ← random_election_timeout env; maybe_apply env; pure (new none timeout)

  unfoldable pub abort_forwarded : Follower → Exec (RawNode env) Follower
  abort_forwarded role = do
    node ← self
    for_each (sorted role.forwarded) λ id. send env node.id (client_response id (err abort))
    pure (record role { forwarded = [] })

  unfoldable pub into_candidate : Follower → Exec (RawNode env) Candidate
  into_candidate role = do
    abort_forwarded role
    maybe_apply env
    random_election_timeout env
    candidate ← Candidate.campaign env
    node ← self
    ensure (contains node.id candidate.votes)
    ensure (not (term env node == 0))
    ensure (eq_vote node.log.vote (some node.id))
    pure candidate

  unfoldable pub into_follower : Follower → Term → Option NodeId → Exec (RawNode env) Follower
  into_follower role new_term leader = do
    ensure (not (new_term == 0))
    abort_forwarded role
    node ← self
    follow node leader
    where
      follow : RawNode env → Option NodeId → Exec (RawNode env) Follower
      follow node (some l) =
          ensure (contains l node.peers)
          >> ensure (is_none role.leader)
          >> ensure (new_term == term env node)
          >> pure (new (some l) role.election_timeout)
      follow node none = do
        ensure (not (new_term == term env node))
        on_log env (set_term_vote bincode new_term none)
        timeout ← random_election_timeout env
        pure (new none timeout)

  -- `match self.role.leader`, in a message that only the leader of the term sends.
  unfoldable pub follow_sender : Follower → Envelope → Option NodeId → Exec (RawNode env) Follower
  follow_sender role msg (some leader) = ensure (msg.from == leader) >> pure role
  follow_sender role msg none = into_follower role msg.term (some msg.from)

  unfoldable pub from_leader : Follower → Envelope → Exec (RawNode env) Follower
  from_leader role msg = follow_sender role msg role.leader

  unfoldable pub step_heartbeat :
      Follower → Envelope → Index → Index → ReadSequence → Exec (RawNode env) Follower
  step_heartbeat role msg last_index commit_index read_seq = do
    ensure (leb commit_index last_index)
    followed ← from_leader role msg
    present ← on_log env (Log.has bincode last_index msg.term)
    let match_index : Index = if present then last_index else 0
    send env msg.from (heartbeat_response match_index read_seq)
    node ← self
    when (not (match_index == 0) && ltb node.log.commit_index commit_index)
        (on_log env (Log.commit bincode commit_index) >> maybe_apply env)
    pure followed

  abbrev index_or : Index → Option Entry → Index
  index_or i none = i
  index_or i (some e) = e.index

  -- `assert_eq!(base_index, first.index - 1)`, in the arithmetic of 64 bits.
  abbrev pub is_base : Index → Option Entry → Bool
  is_base base_index none = true
  is_base base_index (some first) = base_index == (first.index + (u64_mod - 1)) % u64_mod

  unfoldable pub has_base : Index → Term → Exec (RawNode env) Bool
  has_base base_index base_term =
      if base_index == 0 then pure true else on_log env (Log.has bincode base_index base_term)

  unfoldable pub step_append :
      Follower → Envelope → Index → Term → List Entry → Exec (RawNode env) Follower
  step_append role msg base_index base_term entries = do
    ensure (is_base base_index (first? entries))
    followed ← from_leader role msg
    has_base ← has_base base_index base_term
    if has_base
        then (on_log env (Log.splice bincode entries)
            >> send env msg.from (append_response (index_or base_index (last? entries)) 0)
            >> pure followed)
        else do
          node ← self
          send env msg.from (append_response 0 (min base_index (increment node.log.last_index)))
          pure followed

  unfoldable pub step_campaign : Follower → Envelope → Index → Term → Exec (RawNode env) Follower
  step_campaign role msg last_index last_term = do
    node ← self
    if voted_other node.log.vote msg.from || is_newer node.log last_index last_term
        then send env msg.from (campaign_response false) >> pure role
        else do
          on_log env (set_term_vote bincode msg.term (some msg.from))
          send env msg.from (campaign_response true)
          pure role

  unfoldable pub forward :
      Follower → Envelope → RequestId → Option NodeId → Exec (RawNode env) Follower
  forward role msg id (some leader) =
      send env leader msg.message >> pure (record role { forwarded = insert id role.forwarded })
  forward role msg id none = send env msg.from (client_response id (err abort)) >> pure role

  unfoldable pub step_client_request : Follower → Envelope → RequestId → Exec (RawNode env) Follower
  step_client_request role msg id = do
    node ← self
    ensure (msg.from == node.id)
    forward role msg id role.leader

  unfoldable pub step_client_response :
      Follower → Envelope → RequestId → Result Response → Exec (RawNode env) Follower
  step_client_response role msg id response = do
    node ← self
    ensure (eq_vote (some msg.from) role.leader)
    if contains id role.forwarded
        then (send env node.id (client_response id response)
            >> pure (record role { forwarded = remove id role.forwarded }))
        else pure role

  unfoldable pub step_message : Follower → Envelope → Message → Exec (RawNode env) Follower
  step_message role msg (heartbeat last_index commit_index read_seq) =
      step_heartbeat role msg last_index commit_index read_seq
  step_message role msg (append base_index base_term entries) =
      step_append role msg base_index base_term entries
  step_message role msg (read seq) = do
    followed ← from_leader role msg
    send env msg.from (read_response seq)
    pure followed
  step_message role msg (campaign last_index last_term) =
      step_campaign role msg last_index last_term
  step_message role msg (client_request id _) = step_client_request role msg id
  step_message role msg (client_response id response) = step_client_response role msg id response
  step_message role msg (campaign_response _) = pure role
  step_message role msg (heartbeat_response _ _) = lift panic
  step_message role msg (append_response _ _) = lift panic
  step_message role msg (read_response _) = lift panic

  -- The part of `step` for a message of the current term.
  unfoldable pub step_current : Follower → Envelope → Exec (RawNode env) Follower
  step_current role msg =
      let seen : Follower =
        if eq_vote (some msg.from) role.leader then record role { leader_seen = 0 } else role in
      step_message seen msg msg.message

  -- A later term is adopted first; then the message is of the current term.
  unfoldable pub step : Follower → Envelope → Exec (RawNode env) Follower
  step role msg = do
    node ← self
    if ltb msg.term (term env node)
        then pure role
        else if ltb (term env node) msg.term
        then (into_follower role msg.term none >>= λ follower. step_current follower msg)
        else step_current role msg
