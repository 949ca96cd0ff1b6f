-- ===== src/Raft/Node/Keeps.antt =====
-- src/raft/node.rs: operations of a node that leave its log as it is, one rule for each way to
-- build an operation.
use toydb.Prelude.{
  ◌≡◌, refl, ◌∙◌, inl, inr, Bool-cases, Bool, true, false, List, [], ◌∷◌, arith, leb, if◌then◌else◌,
}
use toydb.Error.{Result, ok, err, panic}
use toydb.Exec.{Exec, pure, lift, reads, for_each, continue, ◌>>=◌, when, ensure, self}
use toydb.Raft.Log
use toydb.Raft.Log.{
  Log, Entry, Index, Term, NodeId, Bincode, has_stored, scan_apply, increment, set_term_vote,
  is_none,
}
use toydb.Raft.Log.Outcome.{get-same, scan-same}
use toydb.Raft.Message.{Message}
use toydb.Raft.Node.Raw.{
  Environment, RawNode, on_log, on_state, random_election_timeout, send, send_via,
}

has-same :
    (bincode : Bincode) (i : Index) (t : Term) (log : Log) → (Log.has bincode i t log).1 ≡ log
unfolding Log.has has_stored
has-same bincode i t log = ground (arith, get-same bincode i log)

scan_apply-same : (i : Index) (log : Log) → (scan_apply i log).1 ≡ log
unfolding scan_apply
scan_apply-same i log = elim (Bool-cases (leb log.commit_index i)) [
  | inl done ↦ rw done refl
  | inr pending ↦ rw pending (scan-same log _ _)
]

module _ (env : Environment) where
  open env use {bincode}

  -- Whether the operation succeeds or fails, the log stays as it is.
  pub record Keeps {A : Type 0} (m : Exec (RawNode env) A) : Type 0 where
    pub at : (node : RawNode env) → (m node).1.log ≡ node.log

  pub Keeps-reads : {A : Type 0} (f : RawNode env → Result A) → Keeps (reads f)
  Keeps-reads f = record { at = λ node. refl }

  pub Keeps-pure : {A : Type 0} (a : A) → Keeps (pure a)
  Keeps-pure a = record { at = λ node. refl }

  pub Keeps-lift : {A : Type 0} (r : Result A) → Keeps (lift r)
  Keeps-lift r = record { at = λ node. refl }

  pub Keeps-self : Keeps self
  Keeps-self = record { at = λ node. refl }

  pub Keeps-ensure : (b : Bool) → Keeps (ensure b)
  unfolding ensure
  Keeps-ensure true = record { at = λ node. refl }
  Keeps-ensure false = record { at = λ node. refl }

  pub Keeps-if :
      {A : Type 0} (b : Bool) (m n : Exec (RawNode env) A)
      → Keeps m
      → Keeps n
      → Keeps (if b then m else n)
  Keeps-if true m n h k = h
  Keeps-if false m n h k = k

  pub Keeps-when : (b : Bool) (m : Exec (RawNode env) (Unit {0})) → Keeps m → Keeps (when b m)
  unfolding when
  Keeps-when true m h = h
  Keeps-when false m h = Keeps-pure tt

  pub Keeps-continue :
      {A B : Type 0} (r : Result A) (f : A → Exec (RawNode env) B)
      → ((a : A) → Keeps (f a))
      → Keeps (continue r f)
  Keeps-continue (ok a) f h = record { at = λ s. (h a).at s }
  Keeps-continue (err e) f h = record { at = λ s. refl }
  Keeps-continue panic f h = record { at = λ s. refl }

  pub Keeps-bind :
      {A B : Type 0} (m : Exec (RawNode env) A) (f : A → Exec (RawNode env) B)
      → Keeps m
      → ((a : A) → Keeps (f a))
      → Keeps (m >>= f)
  Keeps-bind m f h k = record { at = λ s. (Keeps-continue (m s).0 f k).at (m s).1 ∙ h.at s }

  pub Keeps-for_each :
      {A : Type 0} (body : A → Exec (RawNode env) (Unit {0})) (xs : List A)
      → ((x : A) → Keeps (body x))
      → Keeps (for_each xs body)
  unfolding for_each
  Keeps-for_each body [] h = Keeps-pure tt
  Keeps-for_each body (x ∷ xs) h =
      Keeps-bind (body x) (λ _. for_each xs body) (h x) (λ _. Keeps-for_each body xs h)

  pub Keeps-on_log :
      {A : Type 0} (op : Exec Log A) → ((log : Log) → (op log).1 ≡ log) → Keeps (on_log env op)
  unfolding on_log
  Keeps-on_log op h = record { at = λ node. h node.log }

  pub Keeps-on_state : {A : Type 0} (op : Exec env.State A) → Keeps (on_state env op)
  unfolding on_state
  Keeps-on_state op = record { at = λ node. refl }

  pub Keeps-random_election_timeout : Keeps (random_election_timeout env)
  unfolding random_election_timeout
  Keeps-random_election_timeout = record { at = λ node. refl }

  pub Keeps-send : (to : NodeId) (message : Message) → Keeps (send env to message)
  unfolding send send_via
  Keeps-send to message = record { at = λ node. refl }

  pub Keeps-has : (i : Index) (t : Term) → Keeps (on_log env (Log.has bincode i t))
  Keeps-has i t = Keeps-on_log _ λ log. has-same bincode i t log

  pub Keeps-scan_apply : (i : Index) → Keeps (on_log env (scan_apply i))
  Keeps-scan_apply i = Keeps-on_log _ λ log. scan_apply-same i log

pub ruleset keeps_rules = (
  Keeps-reads, Keeps-pure, Keeps-lift, Keeps-self, Keeps-ensure, Keeps-if, Keeps-when, Keeps-bind,
  Keeps-for_each, Keeps-on_state, Keeps-random_election_timeout, Keeps-send, Keeps-has,
  Keeps-scan_apply,
)
