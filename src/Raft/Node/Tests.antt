-- ===== src/Raft/Node/Tests.antt =====
-- Instances of src/raft/node.rs for a node of three, with a state machine that counts.
use toydb.Prelude.{ℕ, ◌<◌, ◌≤◌, ◌≡◌, ◌⊎◌, refl, none, [], ◌∷◌, arith, max, ltb, ◌*◌}
use toydb.Error.{Result, ok}
use toydb.Exec.{pure}
use toydb.Raft.Log.Tests.{plain, log_0}
use toydb.Raft.Log.{Entry}
use toydb.Raft.Message.{Envelope, campaign, append}
use toydb.Raft.Node.Raw.{Environment, RawNode, Follower}
use toydb.Raft.Node.Progress.{Progress, IsTracked, advance, quorum_value, quorum_size, cluster_size}
use toydb.Raft.Node.Quorum.{count, quorum_value-majority, progress-IsTracked}
use toydb.Raft.Node.Follower.{step}
use toydb.Raft.Node.Follower.Changes.{LogChange, step-LogChange}
use toydb.Raft.Node.Follower.Vote.{VoteOutcome, step_campaign_lem}

abbrev counting : Environment
counting = record {
  bincode = plain;
  State = ℕ;
  get_applied_index = λ s. s;
  apply = λ e s. (ok [], e.index);
  read = λ b s. ok (s ∷ []);
  Rng = Unit {0};
  random_range = λ low high. pure low;
}

abbrev node_1 : RawNode counting
node_1 = record {
  id = 1;
  peers = 2 ∷ 3 ∷ [];
  log = log_0;
  state = 0;
  tx = [];
  opts = record {
    heartbeat_interval = 4;
    min_election_timeout = 10;
    max_election_timeout = 20;
    max_append_entries = 100;
  };
  rng = tt;
}

abbrev waiting : Follower
waiting = record { leader = none; leader_seen = 3; election_timeout = 10; forwarded = [] }

-- The node in term 1, in which it has not voted.
abbrev node_2 : RawNode counting
node_2 = record node_1 { log = record log_0 { term = 1 } }

-- A leader of term 1 sends the first entry.
abbrev append_1 : Envelope
append_1 = record {
  from = 2;
  term = 1;
  to = 1;
  message = append 0 0 (record { index = 1; term = 1; command = none } ∷ []);
}

abbrev follower_step : Result Follower × RawNode counting
follower_step = step counting waiting append_1 node_2

step-LogChange_example :
    (follower_step.1.log ≡ node_2.log)
    ⊎ LogChange counting none append_1 append_1.message node_2.log follower_step.1.log
step-LogChange_example = step-LogChange counting waiting append_1 node_2 refl

-- Node 3 campaigns in term 1, in which no vote has been cast.
abbrev campaign_3 : Envelope
campaign_3 = record { from = 3; term = 1; to = 1; message = campaign 0 0 }

step_campaign_lem_example : VoteOutcome counting waiting campaign_3 0 0 node_2
step_campaign_lem_example = step_campaign_lem counting waiting campaign_3 0 0 node_2 refl

three_nodes : 3 ≡ cluster_size (2 ∷ 3 ∷ [])
unfolding cluster_size
three_nodes = refl

quorum_value-majority_example :
    (q : ℕ) × (quorum_value (2 ∷ 3 ∷ []) (1 ∷ 3 ∷ 2 ∷ []) ≡ ok q)
    × (quorum_size (2 ∷ 3 ∷ []) ≤ count q (1 ∷ 3 ∷ 2 ∷ []))
    × (cluster_size (2 ∷ 3 ∷ []) < 2 * count q (1 ∷ 3 ∷ 2 ∷ []))
quorum_value-majority_example = quorum_value-majority (2 ∷ 3 ∷ []) (1 ∷ 3 ∷ 2 ∷ []) three_nodes

abbrev peer : Progress
peer = record { match_index = 2; next_index = 5; read_seq = 1 }

abbrev entry_6 : Entry
entry_6 = record { index = 6; term = 1; command = none }

progress-IsTracked_example :
    IsTracked (advance 4 peer).1
    × ((advance 4 peer).1.match_index ≡ max 2 4)
    × ((advance 4 peer).1.next_index ≡ max 5 5)
    × ((advance 4 peer).0 ≡ ltb 2 4)
progress-IsTracked_example =
    (progress-IsTracked peer 4 2 entry_6 (record { ahead = omega arith; fits = omega arith })
      (omega arith) (omega arith) (omega arith)).0
