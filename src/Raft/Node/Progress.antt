-- ===== src/Raft/Node/Progress.antt =====
-- src/raft/node.rs: what a leader knows of a peer (`Progress`), and the quorum of a cluster.
use toydb.Prelude.{
  ℕ, zero, suc, ◌+◌, ◌/◌, ◌-◌, ◌<◌, max, Bool, true, false, not, ◌||◌, Option, none, some, List, [],
  ◌∷◌, length, leb, ◌==◌, if◌then◌else◌,
}
use toydb.Error.{Result, panic, or_panic}
use toydb.Encoding.Keycode.{u64_mod}
use toydb.Raft.Log.{Index, NodeId, increment}
use toydb.Raft.Message.{ReadSequence}

pub record Progress : Type 0 where
  pub match_index : Index
  pub next_index : Index
  pub read_seq : ReadSequence

unfoldable pub advance : Index → Progress → Bool × Progress
advance match_index p = if leb match_index p.match_index then (false, p) else (
  true,
  record p { match_index = match_index; next_index = max p.next_index (increment match_index) },
)

unfoldable pub advance_read : ReadSequence → Progress → Bool × Progress
advance_read read_seq p =
    if leb read_seq p.read_seq then (false, p) else (true, record p { read_seq = read_seq })

unfoldable pub regress_next : Index → Progress → Bool × Progress
regress_next next_index p =
    if leb p.next_index next_index || leb p.next_index (increment p.match_index)
    then (false, p)
    else (true, record p { next_index = max next_index (increment p.match_index) })

-- The entries that a peer has end before the next one to send.
pub record IsTracked (p : Progress) : Type 0 where
  pub ahead : p.match_index < p.next_index
  pub fits : p.next_index < u64_mod

-- The cluster: the peers and the node itself.
unfoldable pub cluster_size : List NodeId → ℕ
cluster_size peers = length peers + 1

unfoldable pub quorum_size : List NodeId → ℕ
quorum_size peers = cluster_size peers / 2 + 1

-- The values from the greatest to the least, as `select_nth_unstable_by` would have them in part.
unfoldable pub insert_descending : ℕ → List ℕ → List ℕ
insert_descending v [] = v ∷ []
insert_descending v (w ∷ ws) =
    let rest = insert_descending v ws in if leb w v then v ∷ w ∷ ws else w ∷ rest

unfoldable pub descending : List ℕ → List ℕ
descending [] = []
descending (v ∷ vs) = insert_descending v (descending vs)

abbrev pub nth : ℕ → List ℕ → Option ℕ
nth n [] = none
nth zero (v ∷ vs) = some v
nth (suc n) (v ∷ vs) = nth n vs

unfoldable pub quorum_value : List NodeId → List ℕ → Result ℕ
quorum_value peers values =
    if not (length values == cluster_size peers)
    then panic
    else or_panic (nth (quorum_size peers - 1) (descending values))
