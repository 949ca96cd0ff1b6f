-- ===== src/Raft/Node/Roles.antt =====
-- src/raft/node.rs: a Raft node, which reacts to messages and to ticks. A method that consumes the
-- node takes its role and gives the next one; what the node keeps in every role is the state. When
-- it fails, the role is gone, and what was stored and sent stays.
use toydb.Prelude.{true, false, not, ◌||◌, none, some, length, ltb, leb, ◌==◌, if◌then◌else◌}
use toydb.Error.{err, panic, abort}
use toydb.Exec.{Exec, pure, lift, ◌>>=◌, ◌>>◌, ensure, self}
use toydb.Raft.Log.{eq_vote}
use toydb.Raft.Message.{
  Message, Envelope, campaign, campaign_response, heartbeat, heartbeat_response, append,
  append_response, read, read_response, client_request, client_response,
}
use toydb.Raft.Node.Progress.{quorum_size, cluster_size}
use toydb.Raft.Node.Raw.{
  Environment, RawNode, Follower, Candidate, increment_ticks, term, send, contains, insert,
}
use toydb.Raft.Node.Leader.{Leader, propose, heartbeat_all}
use toydb.Raft.Node.Leader.Step.{maybe_commit_and_apply}
use toydb.Raft.Node.Leader.Step
use toydb.Raft.Node.Candidate
use toydb.Raft.Node.Follower
use toydb.Raft.Node.Leader

pub data Node : Type 0 where
  candidate : Candidate → Node
  follower : Follower → Node
  leader : Leader → Node

module _ (env : Environment) where
  unfoldable pub into_leader : Candidate → Exec (RawNode env) Leader
  into_leader role = do
    node ← self
    ensure (not (term env node == 0))
    ensure (eq_vote node.log.vote (some node.id))
    (_, proposed) ← propose env (Leader.new node.peers node.log.last_index) none
    (_, committed) ← maybe_commit_and_apply env proposed
    heartbeat_all env committed

  unfoldable pub candidate_vote : Candidate → Envelope → Exec (RawNode env) Node
  candidate_vote role msg = do
    node ← self
    let voted : Candidate = record role { votes = insert msg.from role.votes }
    if leb (quorum_size node.peers) (length voted.votes)
        then (into_leader voted >>= λ r. pure (leader r))
        else pure (candidate voted)

  -- A candidate that hears from a leader of its term follows it.
  unfoldable pub follow_leader : Candidate → Envelope → Exec (RawNode env) Node
  follow_leader role msg = do
    followed ← Candidate.into_follower env msg.term (some msg.from)
    stepped ← Follower.step env followed msg
    pure (follower stepped)

  unfoldable pub candidate_message : Candidate → Envelope → Message → Exec (RawNode env) Node
  candidate_message role msg (campaign_response true) = candidate_vote role msg
  candidate_message role msg (campaign_response false) = pure (candidate role)
  candidate_message role msg (campaign _ _) =
      send env msg.from (campaign_response false) >> pure (candidate role)
  candidate_message role msg (heartbeat _ _ _) = follow_leader role msg
  candidate_message role msg (append _ _ _) = follow_leader role msg
  candidate_message role msg (read _) = follow_leader role msg
  candidate_message role msg (client_request id _) =
      send env msg.from (client_response id (err abort)) >> pure (candidate role)
  candidate_message role msg (heartbeat_response _ _) = lift panic
  candidate_message role msg (append_response _ _) = lift panic
  candidate_message role msg (read_response _) = lift panic
  candidate_message role msg (client_response _ _) = lift panic

  unfoldable pub candidate_step : Candidate → Envelope → Exec (RawNode env) Node
  candidate_step role msg = do
    node ← self
    if ltb msg.term (term env node)
        then pure (candidate role)
        else if ltb (term env node) msg.term
        then (Candidate.into_follower env msg.term none >>= λ r.
            (Follower.step env r msg >>= λ s. pure (follower s)))
        else candidate_message role msg msg.message

  unfoldable pub leader_step : Leader → Envelope → Exec (RawNode env) Node
  leader_step role msg = do
    node ← self
    if ltb msg.term (term env node)
        then pure (leader role)
        else if ltb (term env node) msg.term
        then (Step.into_follower env role msg.term >>= λ r.
            (Follower.step env r msg >>= λ s. pure (follower s)))
        else (Step.step_message env role msg msg.message >>= λ r. pure (leader r))

  unfoldable pub step_role : Node → Envelope → Exec (RawNode env) Node
  step_role (candidate role) msg = candidate_step role msg
  step_role (follower role) msg = Follower.step env role msg >>= λ r. pure (follower r)
  step_role (leader role) msg = leader_step role msg

  unfoldable pub step : Node → Envelope → Exec (RawNode env) Node
  step node msg = do
    raw ← self
    ensure (msg.to == raw.id)
    ensure (contains msg.from raw.peers || msg.from == raw.id)
    step_role node msg

  unfoldable pub follower_tick : Follower → Exec (RawNode env) Node
  follower_tick role =
      let ticked : Follower = record role { leader_seen = increment_ticks role.leader_seen } in
      if leb ticked.election_timeout ticked.leader_seen
      then (Follower.into_candidate env ticked >>= λ r. pure (candidate r))
      else pure (follower ticked)

  unfoldable pub tick : Node → Exec (RawNode env) Node
  tick (candidate role) = Candidate.tick env role >>= λ r. pure (candidate r)
  tick (follower role) = follower_tick role
  tick (leader role) = Step.tick env role >>= λ r. pure (leader r)

  unfoldable pub new : Exec (RawNode env) Node
  new = do
    role ← Follower.create env
    node ← self
    if cluster_size node.peers == 1
        then (Follower.into_candidate env role >>= λ c. (into_leader c >>= λ l. pure (leader l)))
        else pure (follower role)
