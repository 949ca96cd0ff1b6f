-- ===== src/Storage/Frame.antt =====
-- Operations on an engine that keep to a set of keys, one rule for each way to build an operation.
-- A frame says what a write to such a key leaves as it was.
use toydb.Prelude.{
  ◌≡◌, refl, Bool, true, false, List, [], ◌∷◌, arith, if◌then◌else◌, All, ◌≢◌, ◌∙◌, sym,
}
use toydb.Error.{Error, Result, ok, err, panic}
use toydb.Exec.{Exec, pure, raise, lift, reads, for_each, continue, ◌>>=◌, when}
use toydb.Encoding.Bytes.{Bytes, Range, in_range}
use toydb.Encoding.Keycode.{prefix_range}
use toydb.Storage.BTreeMap
use toydb.Storage.BTreeMap.{range, select}
use toydb.Storage.BTreeMap.Lookup.{select-All, get-insert_ne, get-remove_ne}
use toydb.Storage.Memory
use toydb.Storage.Memory.{Memory, set, delete}

range-All : (r : Range) (m es : Memory) → range r m ≡ ok es → All (λ e. in_range r e.0 ≡ true) es
unfolding range
range-All r m es h = rw (← kept) (select-All r m)
  where
    kept : select r m ≡ es
    kept = ground arith

pub record Frame : Type 1 where
  -- The keys that may be written or deleted.
  pub May : Bytes → Type 0
  -- What does not change.
  pub Same : Memory → Memory → Type 0
  pub same_refl : (m : Memory) → Same m m
  pub same_trans : (l m n : Memory) → Same l m → Same m n → Same l n
  pub same_insert : (k v : Bytes) (m : Memory) → May k → Same m (BTreeMap.insert k v m)
  pub same_remove : (k : Bytes) (m : Memory) → May k → Same m (BTreeMap.remove k m)

-- The frame of all keys but one: the value of that one stays.
abbrev pub other_keys : Bytes → Frame
other_keys j = record {
  May = λ k. k ≢ j;
  Same = λ m n. BTreeMap.get j m ≡ BTreeMap.get j n;
  same_refl = λ m. refl;
  same_trans = λ l m n p q. p ∙ q;
  same_insert = λ k v m h. sym (get-insert_ne k j v m h);
  same_remove = λ k m h. sym (get-remove_ne k j m h);
}

module _ (frame : Frame) where
  open frame use {May, Same, same_refl, same_trans, same_insert, same_remove}

  -- Whether the operation succeeds or fails, it leaves the same as it was.
  pub record Within {A : Type 0} (m : Exec Memory A) : Type 0 where
    pub at : (s : Memory) → Same s (m s).1

  pub Within-reads : {A : Type 0} (f : Memory → Result A) → Within (reads f)
  Within-reads f = record { at = λ s. same_refl s }

  pub Within-lift : {A : Type 0} (r : Result A) → Within (lift r)
  Within-lift r = record { at = λ s. same_refl s }

  pub Within-pure : {A : Type 0} (a : A) → Within (pure a)
  Within-pure a = record { at = λ s. same_refl s }

  pub Within-raise : {A : Type 0} (e : Error) → Within (raise {A = A} e)
  Within-raise e = record { at = λ s. same_refl s }

  pub Within-get : (k : Bytes) → Within (Memory.get k)
  unfolding Memory.get
  Within-get k = record { at = λ s. same_refl s }

  pub Within-scan_prefix : (p : Bytes) → Within (Memory.scan_prefix p)
  unfolding Memory.scan_prefix Memory.scan
  Within-scan_prefix p = record { at = λ s. same_refl s }

  pub Within-scan : (r : Range) → Within (Memory.scan r)
  unfolding Memory.scan
  Within-scan r = record { at = λ s. same_refl s }

  pub Within-set : (k v : Bytes) → May k → Within (set k v)
  unfolding set
  Within-set k v h = record { at = λ s. same_insert k v s h }

  pub Within-delete : (k : Bytes) → May k → Within (delete k)
  unfolding delete
  Within-delete k h = record { at = λ s. same_remove k s h }

  Within-for_each_at :
      (ks : List Bytes) → All May ks → (s : Memory) → Same s (for_each ks delete s).1
  unfolding for_each delete
  Within-for_each_at [] h s = same_refl s
  Within-for_each_at (k ∷ ks) h s =
      same_trans s _ _ (same_remove k s h.0) (Within-for_each_at ks h.1 (BTreeMap.remove k s))

  pub Within-for_each : (ks : List Bytes) → All May ks → Within (for_each ks delete)
  Within-for_each ks h = record { at = Within-for_each_at ks h }

  pub Within-if :
      {A : Type 0} (b : Bool) (m n : Exec Memory A)
      → Within m
      → Within n
      → Within (if b then m else n)
  Within-if true m n h k = h
  Within-if false m n h k = k

  pub Within-when : (b : Bool) (m : Exec Memory (Unit {0})) → Within m → Within (when b m)
  unfolding when
  Within-when true m h = h
  Within-when false m h = Within-pure tt

  Within-continue :
      {A B : Type 0} (r : Result A) (f : A → Exec Memory B)
      → ((a : A) → r ≡ ok a → Within (f a))
      → Within (continue r f)
  Within-continue (ok a) f h = record { at = λ s. (h a refl).at s }
  Within-continue (err e) f h = record { at = λ s. same_refl s }
  Within-continue panic f h = record { at = λ s. same_refl s }

  pub Within-bind :
      {A B : Type 0} (m : Exec Memory A) (f : A → Exec Memory B)
      → Within m
      → ((a : A) → Within (f a))
      → Within (m >>= f)
  Within-bind m f h k = record {
    at = λ s. same_trans s (m s).1 _ (h.at s) ((Within-continue (m s).0 f (λ a _. k a)).at (m s).1);
  }

  -- The rest of the block may use what the lifted computation returned.
  pub Within-bind_lift :
      {A B : Type 0} (r : Result A) (f : A → Exec Memory B)
      → ((a : A) → r ≡ ok a → Within (f a))
      → Within (lift r >>= f)
  Within-bind_lift r f k = record { at = λ s. (Within-continue r f k).at s }

  -- The rest of the block may use that the entries lie in the scanned range.
  pub Within-bind_scan :
      {B : Type 0} (p : Bytes) (f : List (Bytes × Bytes) → Exec Memory B)
      → ((es : List (Bytes × Bytes))
          → All (λ e. in_range (prefix_range p) e.0 ≡ true) es
          → Within (f es))
      → Within (Memory.scan_prefix p >>= f)
  unfolding Memory.scan_prefix Memory.scan
  Within-bind_scan p f k = record {
    at = λ s.
        (Within-continue (range (prefix_range p) s) f
            λ es e. k es (range-All (prefix_range p) s es e)).at
          s;
  }

pub ruleset within_rules = (
  Within-reads, Within-lift, Within-pure, Within-raise, Within-get, Within-scan_prefix, Within-scan,
  Within-set, Within-delete, Within-for_each, Within-if, Within-when, Within-bind,
)
