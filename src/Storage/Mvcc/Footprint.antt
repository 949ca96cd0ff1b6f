-- ===== src/Storage/Mvcc/Footprint.antt =====
-- src/storage/mvcc.rs: the engine keys that each operation may write or delete.
use toydb.Prelude.{ℕ, ◌≡◌, subst, true, Option, none, some, List, [], ◌∷◌, All}
use toydb.Error.{ok, ok_injective, >>=-eq-ok}
use toydb.Encoding.Bytes.{Bytes, in_range}
use toydb.Encoding.Keycode.{prefix_range}
use toydb.Storage.Mvcc.Key.{
  version, txn_active, txn_active_snapshot, txn_write, next_version, unversioned, encode,
  encode_prefix, KeyPrefix,
}
use toydb.Storage.Frame.{
  Frame, Within, Within-bind, Within-bind_lift, Within-bind_scan, Within-for_each, Within-delete,
  Within-if, Within-pure, within_rules,
}
use toydb.Storage.Mvcc.{
  TransactionState, Bincode, begin, register, begin_read_only, write_version, commit, rollback,
  scan_active, check_conflict, set_unversioned, rollback_keys, written_key, keys_of,
}

-- The write records of a version, as a prefix scan returns them.
abbrev pub WriteRecord : ℕ → Bytes → Type 0
WriteRecord v k = in_range (prefix_range (encode_prefix (KeyPrefix.txn_write v))) k ≡ true

module _ (frame : Frame) where
  open frame use {May}

  scan_active-Within : Within frame scan_active
  unfolding scan_active
  scan_active-Within = search within_rules

  check_conflict-Within : (u : TransactionState) (key : Bytes) → Within frame (check_conflict u key)
  unfolding check_conflict
  check_conflict-Within u key = search within_rules

  keys_of-All :
      (v : ℕ) (es : List (Bytes × Bytes))
      → ((k : Bytes) → WriteRecord v k → May k)
      → All (λ e. WriteRecord v e.0) es
      → All May (keys_of es)
  keys_of-All v [] f h = tt
  keys_of-All v (e ∷ es) f h = (f e.0 h.0, keys_of-All v es f h.1)

  pub commit-Within :
      (u : TransactionState)
      → ((k : Bytes) → WriteRecord u.version k → May k)
      → May (encode (txn_active u.version))
      → Within frame (commit u)
  unfolding commit
  commit-Within u f g = Within-if frame u.read_only _ _ (Within-pure frame tt) (
      Within-bind_scan frame _ _ λ es h.
        Within-bind frame _ _ (Within-for_each frame _ (keys_of-All u.version es f h))
          λ _. Within-delete frame _ g)

  rollback_keys-All :
      (v : ℕ) (es : List (Bytes × Bytes)) (ks : List Bytes)
      → ((k : Bytes) → WriteRecord v k → May k)
      → ((key : Bytes) → May (encode (version key v)))
      → All (λ e. WriteRecord v e.0) es
      → rollback_keys v es ≡ ok ks
      → All May ks
  unfolding rollback_keys
  rollback_keys-All v [] ks f g h q = subst (All May) (ok_injective q) tt
  rollback_keys-All v (e ∷ es) ks f g h q =
      let (user_key, _, p) = >>=-eq-ok (written_key e.0) _ q in
      let (rest, r, p') = >>=-eq-ok (rollback_keys v es) _ p in
      subst (All May) (ok_injective p')
        (g user_key, (f e.0 h.0, rollback_keys-All v es rest f g h.1 r))

  pub rollback-Within :
      (u : TransactionState)
      → ((k : Bytes) → WriteRecord u.version k → May k)
      → ((key : Bytes) → May (encode (version key u.version)))
      → May (encode (txn_active u.version))
      → Within frame (rollback u)
  unfolding rollback
  rollback-Within u f g l = Within-if frame u.read_only _ _ (Within-pure frame tt) (
      Within-bind_scan frame _ _ λ es h.
        Within-bind_lift frame (rollback_keys u.version es) _ λ ks e.
          Within-bind frame _ _
            (Within-for_each frame ks (rollback_keys-All u.version es ks f g h e))
            λ _. Within-delete frame _ l)

module _ (bincode : Bincode) (frame : Frame) where
  open frame use {May}

  pub register-Within :
      (v : ℕ)
      → May (encode (txn_active v))
      → May (encode (txn_active_snapshot v))
      → Within frame (register bincode v)
  unfolding register
  register-Within v h k = search (within_rules, scan_active-Within) depth 8

  pub begin-Within :
      May (encode next_version)
      → ((v : ℕ) → May (encode (txn_active v)))
      → ((v : ℕ) → May (encode (txn_active_snapshot v)))
      → Within frame (begin bincode)
  unfolding begin
  begin-Within h k l = search (within_rules, λ (v : ℕ). register-Within v (k v) (l v)) depth 8

  pub begin_read_only-Within : (as_of : Option ℕ) → Within frame (begin_read_only bincode as_of)
  unfolding begin_read_only
  begin_read_only-Within none = search (within_rules, scan_active-Within)
  begin_read_only-Within (some v) = search within_rules depth 8

  pub write_version-Within :
      (u : TransactionState) (key : Bytes) (value : Option Bytes)
      → May (encode (txn_write u.version key))
      → May (encode (version key u.version))
      → Within frame (write_version bincode u key value)
  unfolding write_version
  write_version-Within u key value h k = search (within_rules, check_conflict-Within)

  pub set_unversioned-Within :
      (key value : Bytes)
      → May (encode (unversioned key))
      → Within frame (set_unversioned bincode key value)
  unfolding set_unversioned
  set_unversioned-Within key value h = search within_rules
