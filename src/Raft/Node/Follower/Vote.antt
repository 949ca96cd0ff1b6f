-- ===== src/Raft/Node/Follower/Vote.antt =====
-- src/raft/node.rs: how a follower votes.
use toydb.Prelude.{
  ◌<◌, ◌≤◌, ◌≡◌, ◌≢◌, ltb, ◌==◌, refl, ap, ◌⊎◌, inl, inr, Bool, Bool-cases, true, false, ◌||◌,
  Option, none, some, [], ◌∷◌, ◌++◌, arith,
}
use toydb.Error.{ok, panic}
use toydb.Exec.{ensure}
use toydb.Storage.Memory
use toydb.Raft.Log.{
  Bincode, on_engine, Log, Index, Term, NodeId, get_term_vote, set_term_vote, is_none, eq_vote,
}
use toydb.Raft.Message.{Envelope, campaign_response}
use toydb.Raft.Node.Raw.{Environment, RawNode, Follower, on_log, send, send_via, term}
use toydb.Raft.Node.Follower.{step_campaign, voted_other, is_newer}

vote_present : (v : Option NodeId) (n : NodeId) → eq_vote (some n) v ≡ true → v ≡ some n
unfolding eq_vote
vote_present none n h = absurd (cc h)
vote_present (some m) n h = ap some (ground (arith, h))

-- Whoever the vote has not gone to, may get it.
may_get :
    (v : Option NodeId) (n : NodeId)
    → voted_other v n ≡ false
    → (is_none v || eq_vote (some n) v) ≡ true
unfolding voted_other eq_vote
may_get none n h = refl
may_get (some m) n h = ground (arith, h)

vote_stores :
    (bincode : Bincode) (n : NodeId) (t : Term) (log : Log)
    → t ≡ log.term
    → voted_other log.vote n ≡ false
    → let (result, after) = set_term_vote bincode t (some n) log in
      ((t ≡ 0) × (result ≡ panic))
      ⊎ ((0 < t) × (result ≡ ok tt) × (after.vote ≡ some n) × (after.term ≡ t))
unfolding set_term_vote ensure on_engine Memory.set Memory.flush
vote_stores bincode n t log same free =
    let may = may_get log.vote n free in
    elim (Bool-cases (eq_vote (some n) log.vote)) [
      | inl present ↦ ground (arith, same, present, vote_present log.vote n present)
      | inr absent ↦ ground (arith, same, absent, may)
    ]

module _ (env : Environment) where
  open env use {bincode}

  -- The node after it has sent an answer in a term.
  abbrev pub answered : NodeId → Term → Bool → RawNode env → RawNode env
  answered to t vote node = record node {
    tx =
        node.tx
        ++ (record { from = node.id; term = t; to = to; message = campaign_response vote } ∷ []);
  }

  -- The vote of the term is free, or the candidate's already; the entry at the end of the
  -- candidate's log has a later term than the one at the end of this log, or the same term and
  -- no smaller index.
  abbrev pub MayVote : Log → NodeId → Index → Term → Type 0
  MayVote log candidate last_index last_term =
      ((log.vote ≡ none) ⊎ (log.vote ≡ some candidate))
      × ((log.last_term < last_term)
          ⊎ ((log.last_term ≡ last_term) × (log.last_index ≤ last_index)))

  abbrev pub MustRefuse : Log → NodeId → Index → Term → Type 0
  MustRefuse log candidate last_index last_term =
      ((other : NodeId) × (log.vote ≡ some other) × (other ≢ candidate))
      ⊎ (last_term < log.last_term)
      ⊎ ((last_term ≡ log.last_term) × (last_index < log.last_index))

  other-or-free :
      (vote : Option NodeId) (candidate : NodeId)
      → ((voted_other vote candidate ≡ true)
          × ((other : NodeId) × (vote ≡ some other) × (other ≢ candidate)))
        ⊎ ((voted_other vote candidate ≡ false) × ((vote ≡ none) ⊎ (vote ≡ some candidate)))
  unfolding voted_other
  other-or-free none candidate = inr (refl, inl refl)
  other-or-free (some vote) candidate = elim (Bool-cases (candidate == vote)) [
    | inl same ↦ inr (rw same refl, inr (ap some (ground (arith, same))))
    | inr other ↦ inl (rw other refl, (vote, refl, λ e. ground (arith, other, e)))
  ]

  newer-or-not :
      (log : Log) (last_index : Index) (last_term : Term)
      → ((is_newer log last_index last_term ≡ true)
          × ((last_term < log.last_term)
              ⊎ ((last_term ≡ log.last_term) × (last_index < log.last_index))))
        ⊎ ((is_newer log last_index last_term ≡ false)
            × ((log.last_term < last_term)
                ⊎ ((log.last_term ≡ last_term) × (log.last_index ≤ last_index))))
  unfolding is_newer
  newer-or-not log last_index last_term = elim (Bool-cases (ltb last_term log.last_term)) [
    | inl older ↦ inl (rw older refl, inl (ground (arith, older)))
    | inr other ↦ elim (Bool-cases (log.last_term == last_term)) [
      | inr differs ↦ inr (rw (other, differs) refl, inl (ground (arith, other, differs)))
      | inl same ↦ elim (Bool-cases (ltb last_index log.last_index)) [
        | inl longer ↦
            inl (rw (other, same, longer) refl, inr (ground (arith, same), ground (arith, longer)))
        | inr shorter ↦
            inr
              (rw (other, same, shorter) refl, inr (ground (arith, same), ground (arith, shorter)))
      ]
    ]
  ]

  refuse-or-may :
      (log : Log) (candidate : NodeId) (last_index : Index) (last_term : Term)
      → let refused = voted_other log.vote candidate || is_newer log last_index last_term in
        ((refused ≡ true) × MustRefuse log candidate last_index last_term)
        ⊎ ((refused ≡ false) × MayVote log candidate last_index last_term)
  refuse-or-may log candidate last_index last_term = elim (other-or-free log.vote candidate) [
    | inl (t, other) ↦ inl (rw t refl, inl other)
    | inr (f, free) ↦ elim (newer-or-not log last_index last_term) [
      | inl (t, newer) ↦ inl (rw (f, t) refl, inr newer)
      | inr (g, current) ↦ inr (rw (f, g) refl, (free, current))
    ]
  ]

  -- The vote is refused, or it is stored and granted, or it cannot be stored in term 0.
  abbrev pub VoteOutcome : Follower → Envelope → Index → Term → RawNode env → Type 0
  VoteOutcome role msg last_index last_term node =
      let (result, after) = step_campaign env role msg last_index last_term node in
      (MustRefuse node.log msg.from last_index last_term
        × (result ≡ ok role)
        × (after ≡ answered msg.from msg.term false node))
      ⊎ (MayVote node.log msg.from last_index last_term
          × (0 < msg.term)
          × (result ≡ ok role)
          × (after.log.vote ≡ some msg.from)
          × (after.log.term ≡ msg.term)
          × (after.tx ≡ (answered msg.from msg.term true node).tx))
      ⊎ (MayVote node.log msg.from last_index last_term × (msg.term ≡ 0) × (result ≡ panic))

  -- In the term of the message, a follower refuses its vote and changes nothing else, when it has
  -- voted for another node, or the last entry of its log has a later term than the candidate's, or
  -- the same term and a greater index. Otherwise it stores the vote for the candidate and grants
  -- it; in term 0 it does not, and panics.
  pub step_campaign_lem :
      (role : Follower) (msg : Envelope) (last_index : Index) (last_term : Term)
      (node : RawNode env)
      → msg.term ≡ node.log.term
      → VoteOutcome role msg last_index last_term node
  unfolding step_campaign send send_via on_log term get_term_vote
  step_campaign_lem role msg last_index last_term node same =
      elim (refuse-or-may node.log msg.from last_index last_term) [
        | inl (refuses, why) ↦ rw (refuses, same) (inl (why, refl, refl))
        | inr (grants, may) ↦
            let free : voted_other node.log.vote msg.from ≡ false = ground (arith, grants) in
            elim (vote_stores bincode msg.from msg.term node.log same free) [
              | inl (z, p) ↦ rw (grants, p) (inr (inr (may, z, refl)))
              | inr (positive, p, v, t) ↦
                  rw (grants, p, v, t) (inr (inl (may, positive, refl, refl, refl, refl)))
            ]
      ]
