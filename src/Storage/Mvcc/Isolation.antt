-- ===== src/Storage/Mvcc/Isolation.antt =====
-- src/storage/mvcc.rs: snapshot isolation. While other transactions begin, write, commit and roll
-- back, what a transaction reads does not change.
use toydb.Prelude.{
  ℕ, ◌+◌, ◌%◌, ◌<◌, ◌≤◌, ◌≡◌, ◌≢◌, ◌⊎◌, inl, inr, none, refl, ap, subst, ◌∙◌, sym, false, Option,
  some, List, ◌∷◌, arith, All, All-In, In,
}
use toydb.Error.{Result, ok}
use toydb.Exec.{Exec, when}
use toydb.Encoding.Bytes.{Bytes, lex_lt}
use toydb.Encoding.Keycode.{u64_mod}
use toydb.Encoding.Keycode.Prefix.{in_range-ge}
use toydb.Storage.BTreeMap
use toydb.Storage.BTreeMap.Lookup.{get-insert_self}
use toydb.Storage.Frame.{Within, other_keys}
use toydb.Storage.Memory
use toydb.Storage.Memory.{Memory, set}
use toydb.Storage.Mvcc.Key.{
  version, txn_active, txn_active_snapshot, txn_write, next_version, unversioned, encode,
  encode_prefix, KeyPrefix,
}
use toydb.Storage.Mvcc.Unseen.{
  Unseen, unseen_frame, Ignored, version-Ignored, next_version-Ignored, txn_active-Ignored,
  txn_active_snapshot-Ignored, txn_write-Ignored, unversioned-Ignored, scanned-Outside,
}
use toydb.Storage.Mvcc.Footprint.{
  register-Within, begin-Within, write_version-Within, commit-Within, rollback-Within,
  set_unversioned-Within, WriteRecord,
}
use toydb.Storage.Mvcc.{
  TransactionState, is_visible, Bincode, get, begin, register, or_first, write_version, commit,
  rollback, set_unversioned,
}
use toydb.Prelude.{inl}

-- The engine and the other read-write transactions that have begun. One that has ended may stay in
-- the list, which only allows more steps.
pub record System : Type 0 where
  pub store : Memory
  pub others : List TransactionState

module _ (bincode : Bincode) where
  open bincode use {versions}

  -- What the others may do. Versions are 64-bit integers, and do not run out.
  pub data Step : System → System → Type 0 where
    begins :
        (s : System) (u : TransactionState) (m : Memory)
        → begin bincode s.store ≡ (ok u, m)
        → u.version + 1 < u64_mod
        → Step s (record { store = m; others = u ∷ s.others })
    writes :
        (s : System) (u : TransactionState) (key : Bytes) (value : Option Bytes)
        → In u s.others
        → Step s (record s { store = (write_version bincode u key value s.store).1 })
    commits :
        (s : System) (u : TransactionState)
        → In u s.others
        → Step s (record s { store = (commit u s.store).1 })
    rolls_back :
        (s : System) (u : TransactionState)
        → In u s.others
        → Step s (record s { store = (rollback u s.store).1 })
    sets_unversioned :
        (s : System) (key value : Bytes)
        → Step s (record s { store = (set_unversioned bincode key value s.store).1 })

  pub data Steps (s : System) : System → Type 0 where
    stay : Steps s s
    more : {t u : System} → Steps s t → Step t u → Steps s u

  -- The transaction began before the next version was allocated, and does not see the others.
  pub record IsSnapshot (txn : TransactionState) (s : System) : Type 0 where
    pub next : ℕ
    pub stored : BTreeMap.get (encode next_version) s.store ≡ some (versions.encode next)
    pub fits : next < u64_mod
    pub later : (v : ℕ) → next ≤ v → is_visible txn v ≡ false
    pub hidden : All (λ u. (is_visible txn u.version ≡ false) × (u.version < u64_mod)) s.others

  pub txn_active-ne : (v : ℕ) → encode (txn_active v) ≢ encode next_version
  unfolding encode
  txn_active-ne v e = ground arith

  txn_active_snapshot-ne : (v : ℕ) → encode (txn_active_snapshot v) ≢ encode next_version
  unfolding encode
  txn_active_snapshot-ne v e = ground arith

  txn_write-ne : (v : ℕ) (key : Bytes) → encode (txn_write v key) ≢ encode next_version
  unfolding encode
  txn_write-ne v key e = ground arith

  version-ne : (v : ℕ) (key : Bytes) → encode (version key v) ≢ encode next_version
  unfolding encode
  version-ne v key e = ground arith

  unversioned-ne : (key : Bytes) → encode (unversioned key) ≢ encode next_version
  unfolding encode
  unversioned-ne key e = ground arith

  WriteRecord-ne : (v : ℕ) (k : Bytes) → WriteRecord v k → k ≢ encode next_version
  unfolding encode encode_prefix lex_lt
  WriteRecord-ne v k r e = cc (rw e at (in_range-ge (encode_prefix (KeyPrefix.txn_write v)) k r))

  register-version :
      (v : ℕ) (m : Memory) (u : TransactionState) → (register bincode v m).0 ≡ ok u → u.version ≡ v
  unfolding register set when
  register-version v m u e = ground arith

  -- The version that the next transaction gets: the stored one, or 1 in an engine without one.
  abbrev pub IsNext : Memory → ℕ → Type 0
  IsNext m n =
      (BTreeMap.get (encode next_version) m ≡ some (versions.encode n))
      ⊎ ((BTreeMap.get (encode next_version) m ≡ none) × (n ≡ 1))

  pub begin-register :
      (m : Memory) (n : ℕ)
      → n < u64_mod
      → IsNext m n
      → begin bincode m
        ≡ register bincode n
            (BTreeMap.insert (encode next_version) (versions.encode ((n + 1) % u64_mod)) m)
  unfolding begin Memory.get set or_first
  begin-register m n h (inl stored) = rw (stored, or_first, versions.decode-encode n h)
  begin-register m n h (inr (missing, first)) = rw (missing, first) refl

  -- A transaction that begins gets the next version, which then counts up.
  pub begin-next :
      (m m' : Memory) (u : TransactionState) (n : ℕ)
      → n < u64_mod
      → IsNext m n
      → begin bincode m ≡ (ok u, m')
      → (u.version ≡ n)
        × (BTreeMap.get (encode next_version) m' ≡ some (versions.encode ((n + 1) % u64_mod)))
  begin-next m m' u n h stored e =
      let counted = BTreeMap.insert (encode next_version) (versions.encode ((n + 1) % u64_mod)) m in
      let f = sym (begin-register m n h stored) ∙ e in
      (
        register-version n counted u (ap (λ p. p.0) f),
        ap (λ p. BTreeMap.get (encode next_version) p.1) (sym f)
            ∙ sym (
                (register-Within bincode (other_keys (encode next_version)) n (txn_active-ne n)
                    (txn_active_snapshot-ne n)).at
                  counted)
            ∙ get-insert_self (encode next_version) _ m,
      )

module _ (bincode : Bincode) (txn : TransactionState) where
  abbrev Keeps : System → System → Type 0
  Keeps s t = Unseen bincode txn s.store t.store × IsSnapshot bincode txn t

  -- An operation that writes only keys which the transaction ignores, and not the next version.
  Within-Keeps :
      {A : Type 0} (op : Exec Memory A) (s : System)
      → Within (unseen_frame bincode txn) op
      → Within (other_keys (encode next_version)) op
      → IsSnapshot bincode txn s
      → Keeps s (record s { store = (op s.store).1 })
  Within-Keeps op s w o inv = (
    w.at s.store,
    record {
      next = inv.next;
      stored = sym (o.at s.store) ∙ inv.stored;
      fits = inv.fits;
      later = inv.later;
      hidden = inv.hidden;
    },
  )

  scanned-Ignored : (v : ℕ) (k : Bytes) → WriteRecord v k → Ignored txn k
  scanned-Ignored v k h = inl (scanned-Outside v k h)

  begin-Unseen : (m : Memory) → Unseen bincode txn m (begin bincode m).1
  begin-Unseen m =
      (begin-Within bincode (unseen_frame bincode txn) (next_version-Ignored txn)
          (txn_active-Ignored txn) (txn_active_snapshot-Ignored txn)).at
        m

  begin-Keeps :
      (s : System) (u : TransactionState) (m : Memory)
      → begin bincode s.store ≡ (ok u, m)
      → u.version + 1 < u64_mod
      → IsSnapshot bincode txn s
      → Keeps s (record { store = m; others = u ∷ s.others })
  begin-Keeps s u m e fits inv =
      let (v, n) = begin-next bincode s.store m u inv.next inv.fits (inl inv.stored) e in
      let small : inv.next + 1 < u64_mod = omega arith in
      (
        subst (Unseen bincode txn s.store) (ap (λ (p : Result TransactionState × Memory). p.1) e)
            (begin-Unseen s.store),
        record {
          next = inv.next + 1;
          stored = n ∙ ap (λ (k : ℕ). some (bincode.versions.encode k)) (omega arith);
          fits = small;
          later = λ w h. inv.later w (omega arith);
          hidden = ((inv.later u.version (omega arith), omega arith), inv.hidden);
        },
      )

  Step-Keeps : {s t : System} → Step bincode s t → IsSnapshot bincode txn s → Keeps s t
  Step-Keeps (begins s u m e fits) inv = begin-Keeps s u m e fits inv
  Step-Keeps (writes s u key value i) inv =
      let (hidden, fits) = All-In _ i inv.hidden in
      Within-Keeps _ s
        (write_version-Within bincode _ u key value (txn_write-Ignored txn u.version key)
          (version-Ignored txn key u.version fits hidden))
        (write_version-Within bincode _ u key value (txn_write-ne bincode u.version key)
          (version-ne bincode u.version key))
        inv
  Step-Keeps (commits s u i) inv =
      Within-Keeps _ s
        (commit-Within _ u (scanned-Ignored u.version) (txn_active-Ignored txn u.version))
        (commit-Within _ u (WriteRecord-ne bincode u.version) (txn_active-ne bincode u.version)) inv
  Step-Keeps (rolls_back s u i) inv =
      let (hidden, fits) = All-In _ i inv.hidden in
      Within-Keeps _ s
        (rollback-Within _ u (scanned-Ignored u.version)
          (λ key. version-Ignored txn key u.version fits hidden) (txn_active-Ignored txn u.version))
        (rollback-Within _ u (WriteRecord-ne bincode u.version) (version-ne bincode u.version)
          (txn_active-ne bincode u.version))
        inv
  Step-Keeps (sets_unversioned s key value) inv =
      Within-Keeps _ s (set_unversioned-Within bincode _ key value (unversioned-Ignored txn key))
        (set_unversioned-Within bincode _ key value (unversioned-ne bincode key)) inv

  Steps-Keeps : {s t : System} → IsSnapshot bincode txn s → Steps bincode s t → Keeps s t
  Steps-Keeps inv stay = ((λ key. refl), inv)
  Steps-Keeps inv (more r st) =
      let (before, inv') = Steps-Keeps inv r in
      let (after, inv'') = Step-Keeps st inv' in ((λ key. before key ∙ after key), inv'')

  -- A transaction whose snapshot was taken before the next version was allocated, and to which the
  -- other open transactions are invisible, reads the same value of every key, or the same error,
  -- after any sequence of steps of the others: begins that succeed, while versions do not run out,
  -- and writes, commits, rollbacks and unversioned writes, in any order and with any outcome.
  pub snapshot_isolation :
      (s t : System) (key : Bytes)
      → IsSnapshot bincode txn s
      → Steps bincode s t
      → (get bincode txn key s.store).0 ≡ (get bincode txn key t.store).0
  snapshot_isolation s t key inv steps = (Steps-Keeps inv steps).0 key
