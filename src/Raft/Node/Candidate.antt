-- ===== src/Raft/Node/Candidate.antt =====
-- src/raft/node.rs: a candidate's campaign, and what becomes of it.
use toydb.Prelude.{◌+◌, ◌%◌, not, Option, none, some, [], leb, ◌==◌, if◌then◌else◌}
use toydb.Exec.{Exec, pure, ◌>>=◌, ◌>>◌, ensure, self}
use toydb.Raft.Log.{Term, NodeId, increment, set_term_vote}
use toydb.Raft.Message.{Message}
use toydb.Raft.Node.Raw.{
  Environment, RawNode, Follower, Candidate, Ticks, on_log, term, random_election_timeout,
  broadcast, insert,
}

unfoldable pub new : Ticks → Candidate
new election_timeout = record {
  votes = [];
  election_duration = 0;
  election_timeout = election_timeout;
}

module _ (env : Environment) where
  open env use {bincode}

  unfoldable pub campaign : Exec (RawNode env) Candidate
  campaign = do
    node ← self
    let next : Term = increment (term env node)
    timeout ← random_election_timeout env
    let role : Candidate = record (new timeout) { votes = insert node.id [] }
    on_log env (set_term_vote bincode next (some node.id))
    after ← self
    broadcast env (Message.campaign after.log.last_index after.log.last_term)
    pure role

  unfoldable pub into_follower : Term → Option NodeId → Exec (RawNode env) Follower
  into_follower new_term leader = do
    timeout ← random_election_timeout env
    node ← self
    follow timeout node leader
    where
      role : Ticks → Follower
      role timeout = record {
        leader = leader;
        leader_seen = 0;
        election_timeout = timeout;
        forwarded = [];
      }

      follow : Ticks → RawNode env → Option NodeId → Exec (RawNode env) Follower
      follow timeout node (some _) = ensure (new_term == term env node) >> pure (role timeout)
      follow timeout node none =
          ensure (not (new_term == term env node))
          >> on_log env (set_term_vote bincode new_term none)
          >> pure (role timeout)

  unfoldable pub tick : Candidate → Exec (RawNode env) Candidate
  tick role =
      let duration = (role.election_duration + 1) % 256 in
      if leb role.election_timeout duration
      then campaign
      else pure (record role { election_duration = duration })
