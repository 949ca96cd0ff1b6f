-- ===== src/Raft/Node/Raw.antt =====
-- src/raft/node.rs and src/raft/state.rs: what a node keeps in every role, and how it sends. The
-- state machine and the random numbers are parameters.
use toydb.Prelude.{
  ℕ, ◌+◌, ◌%◌, Bool, true, false, Option, List, [], ◌∷◌, ◌++◌, leb, ◌==◌, if◌then◌else◌,
}
use toydb.Error.{Result, ok, err, panic}
use toydb.Exec.{Exec, lift, ◌>>=◌, for_each, put, self}
use toydb.Encoding.Bytes.{Bytes}
use toydb.Raft.Log.{Log, Entry, Bincode, Index, Term, NodeId, get_term_vote, scan_apply}
use toydb.Raft.Message.{Envelope, Message, RequestId}

abbrev pub Ticks : Type 0
Ticks = ℕ

-- A tick counter has 8 bits.
abbrev pub increment_ticks : Ticks → Ticks
increment_ticks n = (n + 1) % 256

pub record Options : Type 0 where
  pub heartbeat_interval : Ticks
  pub min_election_timeout : Ticks
  pub max_election_timeout : Ticks
  pub max_append_entries : ℕ

-- `dyn State`, the `rand` crate and the encoding of log entries.
pub record Environment : Type 1 where
  pub bincode : Bincode
  pub State : Type 0
  pub get_applied_index : State → Index
  pub apply : Entry → Exec State Bytes
  pub read : Bytes → State → Result Bytes
  pub Rng : Type 0
  pub random_range : Ticks → Ticks → Exec Rng Ticks

-- Sets of node and request ids, as lists without duplicates.
unfoldable pub contains : ℕ → List ℕ → Bool
contains x [] = false
contains x (y ∷ ys) = let rest = contains x ys in if x == y then true else rest

unfoldable pub insert : ℕ → List ℕ → List ℕ
insert x ys = if contains x ys then ys else x ∷ ys

unfoldable pub remove : ℕ → List ℕ → List ℕ
remove x [] = []
remove x (y ∷ ys) = let rest = remove x ys in if x == y then rest else y ∷ rest

-- `sorted_by_key`
unfoldable pub insert_sorted : {A : Type 0} → (A → ℕ) → A → List A → List A
insert_sorted key x [] = x ∷ []
insert_sorted key x (y ∷ ys) =
    let rest = insert_sorted key x ys in if leb (key x) (key y) then x ∷ y ∷ ys else y ∷ rest

unfoldable pub sorted_by_key : {A : Type 0} → (A → ℕ) → List A → List A
sorted_by_key key [] = []
sorted_by_key key (x ∷ xs) = insert_sorted key x (sorted_by_key key xs)

abbrev pub sorted : List ℕ → List ℕ
sorted = sorted_by_key λ n. n

pub record Follower : Type 0 where
  pub leader : Option NodeId
  pub leader_seen : Ticks
  pub election_timeout : Ticks
  pub forwarded : List RequestId

pub record Candidate : Type 0 where
  pub votes : List NodeId
  pub election_duration : Ticks
  pub election_timeout : Ticks

module _ (env : Environment) where
  open env use {bincode, State, get_applied_index, apply, Rng, random_range}

  -- A node without its role. The messages that it has sent are kept in order.
  pub record RawNode : Type 0 where
    pub id : NodeId
    pub peers : List NodeId
    pub log : Log
    pub state : State
    pub tx : List Envelope
    pub opts : Options
    pub rng : Rng

  unfoldable pub on_log : {A : Type 0} → Exec Log A → Exec RawNode A
  on_log op node = let (r, log) = op node.log in (r, record node { log = log })

  unfoldable pub on_state : {A : Type 0} → Exec State A → Exec RawNode A
  on_state op node = let (r, state) = op node.state in (r, record node { state = state })

  unfoldable pub term : RawNode → Term
  term node = (get_term_vote node.log).0

  unfoldable pub random_election_timeout : Exec RawNode Ticks
  random_election_timeout node =
      let (r, rng) =
        random_range node.opts.min_election_timeout node.opts.max_election_timeout node.rng in
      (r, record node { rng = rng })

  unfoldable pub send_via : Envelope → Exec RawNode (Unit {0})
  send_via msg node = put (record node { tx = node.tx ++ (msg ∷ []) }) node

  unfoldable pub send : NodeId → Message → Exec RawNode (Unit {0})
  send to message node =
      send_via (record { from = node.id; term = term node; to = to; message = message }) node

  unfoldable pub broadcast : Message → Exec RawNode (Unit {0})
  broadcast message node = for_each (sorted node.peers) (λ id. send id message) node

  -- An error of the state machine is passed over; a panic is not.
  unfoldable pub apply_ignored : Entry → Exec State (Unit {0})
  apply_ignored e state = let (r, after) = apply e state in (ignored r, after)
    where
      ignored : Result Bytes → Result (Unit {0})
      ignored (ok _) = ok tt
      ignored (err _) = ok tt
      ignored panic = panic

  -- `RawNode<Follower>::maybe_apply`: the iterator decodes each entry before it is applied.
  unfoldable pub maybe_apply : Exec RawNode (Unit {0})
  maybe_apply = do
    node ← self
    scan ← on_log (scan_apply (get_applied_index node.state))
    for_each scan λ item. do e ← lift (bincode.entries.decode item.1); on_state (apply_ignored e)
