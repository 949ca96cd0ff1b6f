-- ===== src/Raft/Node/Follower/Changes.antt =====
-- src/raft/node.rs: what a follower does to its log in the term of a message.
use toydb.Prelude.{
  ◌<◌, ◌≤◌, ◌≡◌, refl, sym, ap, subst, ◌∙◌, ◌⊎◌, inl, inr, Bool, true, false, Bool-cases, not, ◌&&◌,
  ◌||◌, Option, none, some, List, ltb, leb, ◌==◌, if◌then◌else◌, first?, arith,
}
use toydb.Error.{Result, ok, panic, panic-ne, ok_injective}
use toydb.Exec.{Exec, ensure, ensure-true, ◌>>◌, pure}
use toydb.Raft.Log
use toydb.Raft.Log.{Log, Entry, Index, Term, NodeId, eq_vote, get_term_vote, set_term_vote}
use toydb.Raft.Message.{
  Message, Envelope, RequestId, ReadSequence, Response, campaign, campaign_response, heartbeat,
  heartbeat_response, append, append_response, read, read_response, client_request, client_response,
}
use toydb.Raft.Node.Raw.{Environment, RawNode, Follower, maybe_apply, on_log, send, send_via, term}
use toydb.Raft.Node.Keeps.{
  Keeps, Keeps-lift, Keeps-pure, Keeps-ensure, Keeps-self, Keeps-send, Keeps-has, Keeps-bind,
  keeps_rules,
}
use toydb.Raft.Node.LeadsTo.{
  LeadsTo, LeadsTo-Keeps, LeadsTo-read, LeadsTo-bind, LeadsTo-on_log, LeadsTo-if, LeadsTo-when,
}
use toydb.Raft.Node.Follower.{
  step, step_current, step_message, step_heartbeat, step_append, step_campaign, step_client_request,
  step_client_response, from_leader, follow_sender, forward, into_follower, abort_forwarded,
  has_base, is_base, voted_other, is_newer,
}

module _ (env : Environment) where
  open env use {bincode}

  maybe_apply-Keeps : Keeps env (maybe_apply env)
  unfolding maybe_apply
  maybe_apply-Keeps = search keeps_rules depth 8

  abort_forwarded-Keeps : (role : Follower) → Keeps env (abort_forwarded env role)
  unfolding abort_forwarded
  abort_forwarded-Keeps role = search keeps_rules depth 8

  follow_sender-Keeps :
      (role : Follower) (msg : Envelope) (leader : Option NodeId)
      → Keeps env (follow_sender env role msg leader)
  unfolding follow_sender into_follower
  follow_sender-Keeps role msg none = search (keeps_rules, abort_forwarded-Keeps) depth 8
  follow_sender-Keeps role msg (some l) = search keeps_rules

  from_leader-Keeps : (role : Follower) (msg : Envelope) → Keeps env (from_leader env role msg)
  unfolding from_leader
  from_leader-Keeps role msg = follow_sender-Keeps role msg role.leader

  has_base-Keeps : (i : Index) (t : Term) → Keeps env (has_base env i t)
  unfolding has_base
  has_base-Keeps i t = search keeps_rules

  step_client_response-Keeps :
      (role : Follower) (msg : Envelope) (id : RequestId) (response : Result Response)
      → Keeps env (step_client_response env role msg id response)
  unfolding step_client_response
  step_client_response-Keeps role msg id response = search keeps_rules depth 8

  forward-Keeps :
      (role : Follower) (msg : Envelope) (id : RequestId) (leader : Option NodeId)
      → Keeps env (forward env role msg id leader)
  unfolding forward
  forward-Keeps role msg id none = search keeps_rules
  forward-Keeps role msg id (some l) = search keeps_rules

  step_client_request-Keeps :
      (role : Follower) (msg : Envelope) (id : RequestId)
      → Keeps env (step_client_request env role msg id)
  unfolding step_client_request
  step_client_request-Keeps role msg id = search (keeps_rules, forward-Keeps) depth 8

  -- The sender is the leader that the follower knows, or it knows none.
  abbrev pub IsLeader : Option NodeId → NodeId → Type 0
  IsLeader leader sender = (leader ≡ some sender) ⊎ (leader ≡ none)

  abbrev pub HasEntry : Log → Index → Term → Type 0
  HasEntry log i t = (Log.has bincode i t log).0 ≡ ok true

  -- A heartbeat commits, if the log has the last entry of the leader. An append replaces the
  -- tail of the log, if the log has the entry before, or there is none. A campaign sets the vote.
  abbrev pub LogChange : Option NodeId → Envelope → Message → Log → Log → Type 0
  LogChange leader msg (heartbeat last_index commit_index _) log after =
      IsLeader leader msg.from
      × (commit_index ≤ last_index)
      × (0 < last_index)
      × (log.commit_index < commit_index)
      × HasEntry log last_index msg.term
      × (after ≡ (Log.commit bincode commit_index log).1)
  LogChange leader msg (append base_index base_term entries) log after =
      IsLeader leader msg.from
      × (is_base env base_index (first? entries) ≡ true)
      × ((base_index ≡ 0) ⊎ HasEntry log base_index base_term)
      × (after ≡ (Log.splice bincode entries log).1)
  LogChange leader msg (campaign _ _) log after =
      after ≡ (set_term_vote bincode msg.term (some msg.from) log).1
  LogChange leader msg _ log after = after ≡ log

  follow_sender-IsLeader :
      (role r : Follower) (msg : Envelope) (leader : Option NodeId) (node : RawNode env)
      → (follow_sender env role msg leader node).0 ≡ ok r
      → IsLeader leader msg.from
  unfolding follow_sender ensure
  follow_sender-IsLeader role r msg none node h = inr refl
  follow_sender-IsLeader role r msg (some l) node h = elim (Bool-cases (msg.from == l)) [
    | inl same ↦ inl (ap some (ground (arith, same)))
    | inr other ↦ panic-ne (sym (rw other refl) ∙ h)
  ]

  from_leader-IsLeader :
      (role r : Follower) (msg : Envelope) (node : RawNode env)
      → (from_leader env role msg node).0 ≡ ok r
      → IsLeader role.leader msg.from
  unfolding from_leader
  from_leader-IsLeader role r msg node h = follow_sender-IsLeader role r msg role.leader node h

  has-HasEntry :
      (log : Log) (node : RawNode env) (i : Index) (t : Term)
      → node.log ≡ log
      → (on_log env (Log.has bincode i t) node).0 ≡ ok true
      → HasEntry log i t
  unfolding on_log
  has-HasEntry log node i t same h = subst (λ l. HasEntry l i t) same h

  has_base-HasEntry :
      (log : Log) (node : RawNode env) (i : Index) (t : Term)
      → node.log ≡ log
      → (has_base env i t node).0 ≡ ok true
      → (i ≡ 0) ⊎ HasEntry log i t
  unfolding has_base
  has_base-HasEntry log node i t same h = elim (Bool-cases (i == 0)) [
    | inl zero ↦ inl (ground (arith, zero))
    | inr other ↦ inr (has-HasEntry log node i t same (sym (rw other refl) ∙ h))
  ]

  module _ (role : Follower) (msg : Envelope) (log : Log) where
    abbrev Leads : Message → Exec (RawNode env) Follower → Type 0
    Leads message = LeadsTo env log (LogChange role.leader msg message log)

    commit_after :
        (last_index commit_index : Index) (present : Bool) (own : Index)
        → (not ((if present then last_index else 0) == 0) && ltb own commit_index) ≡ true
        → (present ≡ true) × (0 < last_index) × (own < commit_index)
    commit_after last_index commit_index true own h = (refl, ground (arith, h), ground (arith, h))
    commit_after last_index commit_index false own h = absurd (ground (arith, h))

    step_heartbeat-Leads :
        (last_index commit_index : Index) (read_seq : ReadSequence)
        → Leads
            (heartbeat last_index commit_index read_seq)
            (step_heartbeat env role msg last_index commit_index read_seq)
    unfolding step_heartbeat
    step_heartbeat-Leads last_index commit_index read_seq =
        let C = LogChange role.leader msg (heartbeat last_index commit_index read_seq) log in
        LeadsTo-read env log C _ _ (Keeps-ensure env (leb commit_index last_index)) λ _ n0 _ h0.
          LeadsTo-read env log C _ _ (from_leader-Keeps role msg) λ followed n1 _ h1.
            LeadsTo-read env log C _ _ (Keeps-has env last_index msg.term) λ present n2 e2 h2.
              LeadsTo-read env log C _ _ (Keeps-send env _ _) λ _ _ _ _.
                LeadsTo-read env log C _ _ (Keeps-self env) λ node n4 e4 h4.
                  LeadsTo-bind env log C _ _
                    (LeadsTo-when env log C _ _ λ guard.
                      LeadsTo-bind env log C _ _
                        (LeadsTo-on_log env log C (Log.commit bincode commit_index) (
                          let (is_present, positive, before) =
                            commit_after last_index commit_index present node.log.commit_index
                              guard in
                          let same : node.log ≡ log =
                            ap (λ (n : RawNode env). n.log) (sym (ok_injective h4)) ∙ e4 in
                          (
                            from_leader-IsLeader role followed msg n1 h1,
                            ground (arith, ensure-true (leb commit_index last_index) n0 h0),
                            positive,
                            subst (λ (l : Log). l.commit_index < commit_index) same before,
                            has-HasEntry log n2 last_index msg.term e2 (h2 ∙ ap ok is_present),
                            refl,
                          )))
                        (λ _. maybe_apply-Keeps))
                    (λ _. Keeps-pure env followed)

    step_append-Leads :
        (base_index : Index) (base_term : Term) (es : List Entry)
        → Leads (append base_index base_term es) (step_append env role msg base_index base_term es)
    unfolding step_append
    step_append-Leads base_index base_term es =
        let C = LogChange role.leader msg (append base_index base_term es) log in
        LeadsTo-read env log C _ _ (Keeps-ensure env (is_base env base_index (first? es)))
          λ _ n0 _ h0. LeadsTo-read env log C _ _ (from_leader-Keeps role msg) λ followed n1 _ h1.
            LeadsTo-read env log C _ _ (has_base-Keeps base_index base_term) λ found n2 e2 h2.
              LeadsTo-if env log C found _ _
                (λ is_found.
                  LeadsTo-bind env log C _ _
                    (LeadsTo-bind env log C _ _
                      (LeadsTo-on_log env log C (Log.splice bincode es) (
                        from_leader-IsLeader role followed msg n1 h1,
                        ensure-true (is_base env base_index (first? es)) n0 h0,
                        has_base-HasEntry log n2 base_index base_term e2 (h2 ∙ ap ok is_found),
                        refl,
                      ))
                      (λ _. Keeps-send env _ _))
                    (λ _. Keeps-pure env followed))
                (λ _. LeadsTo-Keeps env log C _ (search keeps_rules depth 8))

    step_campaign-Leads :
        (last_index : Index) (last_term : Term)
        → Leads (campaign last_index last_term) (step_campaign env role msg last_index last_term)
    unfolding step_campaign send send_via
    step_campaign-Leads last_index last_term =
        let C = LogChange role.leader msg (campaign last_index last_term) log in
        let granted : LeadsTo env log C (
            on_log env (set_term_vote bincode msg.term (some msg.from))
            >> (send env msg.from (campaign_response true) >> pure role)) =
          LeadsTo-bind env log C _ _
            (LeadsTo-on_log env log C (set_term_vote bincode msg.term (some msg.from)) refl)
            (λ _. Keeps-bind env _ _ (Keeps-send env _ _) (λ _. Keeps-pure env role)) in
        record {
          at = λ node same.
              elim (Bool-cases
                (voted_other node.log.vote msg.from || is_newer node.log last_index last_term)) [
                  | inl refuses ↦ rw refuses (inl same)
                  | inr grants ↦ rw grants (granted.at node same)
                ];
        }

    step_message-Leads : (message : Message) → Leads message (step_message env role msg message)
    unfolding step_message
    step_message-Leads (heartbeat l c r) = step_heartbeat-Leads l c r
    step_message-Leads (append i t es) = step_append-Leads i t es
    step_message-Leads (campaign l t) = step_campaign-Leads l t
    step_message-Leads (read seq) =
        LeadsTo-Keeps env log _ _ (search (keeps_rules, from_leader-Keeps) depth 8)
    step_message-Leads (client_request id r) =
        LeadsTo-Keeps env log _ _ (step_client_request-Keeps role msg id)
    step_message-Leads (client_response id r) =
        LeadsTo-Keeps env log _ _ (step_client_response-Keeps role msg id r)
    step_message-Leads (campaign_response _) = LeadsTo-Keeps env log _ _ (Keeps-pure env role)
    step_message-Leads (heartbeat_response _ _) = LeadsTo-Keeps env log _ _ (Keeps-lift env panic)
    step_message-Leads (append_response _ _) = LeadsTo-Keeps env log _ _ (Keeps-lift env panic)
    step_message-Leads (read_response _) = LeadsTo-Keeps env log _ _ (Keeps-lift env panic)

  step_current-Leads :
      (role : Follower) (msg : Envelope) (log : Log)
      → LeadsTo env log (LogChange role.leader msg msg.message log) (step_current env role msg)
  unfolding step_current
  step_current-Leads role msg log = elim (Bool-cases (eq_vote (some msg.from) role.leader)) [
    | inl seen ↦ rw seen (step_message-Leads (record role { leader_seen = 0 }) msg log msg.message)
    | inr unseen ↦ rw unseen (step_message-Leads role msg log msg.message)
  ]

  step-current :
      (role : Follower) (msg : Envelope) (node : RawNode env)
      → msg.term ≡ node.log.term
      → step env role msg node ≡ step_current env role msg node
  unfolding step term get_term_vote
  step-current role msg node same =
      let past : ltb msg.term node.log.term ≡ false = ground (arith, same) in
      let future : ltb node.log.term msg.term ≡ false = ground (arith, same) in
      rw (past, future) refl

  -- A follower that takes a message of its term, whether the step succeeds, fails or panics,
  -- leaves its log as it is, or does one thing to it. A heartbeat of the leader makes it commit an
  -- index after its commit index and not after the leader's last one, if the log has the last
  -- entry of the leader, with the term. An append of the leader makes it splice the entries, if
  -- these follow the base and the log has the base, or the base is 0. A campaign makes it vote for
  -- the sender. A leader is the one that the follower knows, or any sender if it knows none.
  pub step-LogChange :
      (role : Follower) (msg : Envelope) (node : RawNode env)
      → msg.term ≡ node.log.term
      → let after = (step env role msg node).1.log in
        (after ≡ node.log) ⊎ LogChange role.leader msg msg.message node.log after
  step-LogChange role msg node same =
      subst
        (λ (r : Result Follower × RawNode env).
          (r.1.log ≡ node.log) ⊎ LogChange role.leader msg msg.message node.log r.1.log)
        (sym (step-current role msg node same))
        ((step_current-Leads role msg node.log).at node refl)
