-- ===== src/Raft/Node/LeadsTo.antt =====
-- src/raft/node.rs: operations of a node that leave its log as it is or change it in one way.
use toydb.Prelude.{◌≡◌, refl, sym, subst, ◌∙◌, ◌⊎◌, inl, inr, Bool, true, false, if◌then◌else◌}
use toydb.Error.{Result, ok, err, panic}
use toydb.Exec.{Exec, continue, ◌>>=◌, when}
use toydb.Raft.Log.{Log}
use toydb.Raft.Node.Raw.{Environment, RawNode, on_log}
use toydb.Raft.Node.Keeps.{Keeps}

module _ (env : Environment) (log : Log) (Change : Log → Type 0) where
  -- On the given log the operation leaves it, or changes it so.
  pub record LeadsTo {A : Type 0} (m : Exec (RawNode env) A) : Type 0 where
    pub at : (node : RawNode env) → node.log ≡ log → ((m node).1.log ≡ log) ⊎ Change (m node).1.log

  pub LeadsTo-Keeps : {A : Type 0} (m : Exec (RawNode env) A) → Keeps env m → LeadsTo m
  LeadsTo-Keeps m h = record { at = λ node same. inl (h.at node ∙ same) }

  -- The rest of an operation runs on the same log, with what its beginning returns.
  pub LeadsTo-read :
      {A B : Type 0} (m : Exec (RawNode env) A) (f : A → Exec (RawNode env) B)
      → Keeps env m
      → ((a : A) (node : RawNode env) → node.log ≡ log → (m node).0 ≡ ok a → LeadsTo (f a))
      → LeadsTo (m >>= f)
  LeadsTo-read {A} {B} m f h k = record { at = λ node same. by_result node same (m node).0 refl }
    where
      by_result :
          (node : RawNode env)
          → node.log ≡ log
          → (r : Result A) → (m node).0 ≡ r
          → ((continue r f (m node).1).1.log ≡ log) ⊎ Change (continue r f (m node).1).1.log
      by_result node same panic q = inl (h.at node ∙ same)
      by_result node same (err e) q = inl (h.at node ∙ same)
      by_result node same (ok a) q = (k a node same q).at (m node).1 (h.at node ∙ same)

  pub LeadsTo-bind :
      {A B : Type 0} (m : Exec (RawNode env) A) (f : A → Exec (RawNode env) B)
      → LeadsTo m
      → ((a : A) → Keeps env (f a))
      → LeadsTo (m >>= f)
  LeadsTo-bind {A} {B} m f h k = record {
    at = λ node same. elim (h.at node same) [
      | inl kept ↦ inl (rest node (m node).0 ∙ kept)
      | inr changed ↦ inr (subst Change (sym (rest node (m node).0)) changed)
    ];
  }
    where
      rest : (node : RawNode env) (r : Result A) → (continue r f (m node).1).1.log ≡ (m node).1.log
      rest node panic = refl
      rest node (err e) = refl
      rest node (ok a) = (k a).at (m node).1

  pub LeadsTo-on_log : {A : Type 0} (op : Exec Log A) → Change (op log).1 → LeadsTo (on_log env op)
  unfolding on_log
  LeadsTo-on_log op h = record { at = λ node same. inr (subst (λ l. Change (op l).1) (sym same) h) }

  pub LeadsTo-if :
      {A : Type 0} (b : Bool) (m n : Exec (RawNode env) A)
      → (b ≡ true → LeadsTo m)
      → (b ≡ false → LeadsTo n)
      → LeadsTo (if b then m else n)
  LeadsTo-if true m n h k = h refl
  LeadsTo-if false m n h k = k refl

  pub LeadsTo-when :
      (b : Bool) (m : Exec (RawNode env) (Unit {0})) → (b ≡ true → LeadsTo m) → LeadsTo (when b m)
  unfolding when
  LeadsTo-when true m h = h refl
  LeadsTo-when false m h = record { at = λ node same. inl same }
