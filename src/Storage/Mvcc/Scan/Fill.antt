-- ===== src/Storage/Mvcc/Scan/Fill.antt =====
-- src/storage/mvcc.rs: `fill_buffer` takes the first live rows, and keeps the range of the others.
use toydb.Prelude.{
  ℕ, zero, suc, ◌+◌, ◌<◌, ◌≤◌, ◌≡◌, ◌⊎◌, refl, sym, ap, ◌∙◌, subst, Bool, true, false, Option, none,
  some, List, [], ◌∷◌, ◌++◌, map, append_assoc, append-nil, if◌then◌else◌, first?, length, ◌==◌,
  All, inl, inr, Bool-cases, arith,
}
use toydb.Error.{Error, Result, ok, err, panic, ◌>>=◌, >>=-ok}
use toydb.Encoding.Bytes.{Bytes, Bound, included, eq_bytes}
use toydb.Encoding.Codec.{Codec}
use toydb.Storage.Mvcc.{TransactionState, is_visible}
use toydb.Storage.Mvcc.Scan.{
  Item, Next, Entries, Peekable, next, peek, next_peeked, peek_peeked, ScanIterator, Filled,
  save_remainder, push_live, unless_newer, take_item, fill_loop,
}
use toydb.Storage.Mvcc.Scan.Versions.{
  entry, FitsItem, Suffix, Suffix-tail, Suffix-trans, Suffix-All, visible, Found, nothing, item,
  try_next-Found,
}

abbrev fresh : List Item → Peekable
fresh items = record { peeked = none; inner = map entry items }

module _ (txn : TransactionState) (all : List Item) where
  -- The lookahead stands for the visible items that it still returns.
  pub data Stands : Peekable → List Item → Type 0 where
    anew : (items : List Item) → Suffix items all → Stands (fresh items) (visible txn items)
    held :
        (i : Item) (rest : List Item)
        → is_visible txn i.1 ≡ true
        → Suffix (i ∷ rest) all
        → Stands
            (record { peeked = some (ok (some i)); inner = map entry rest })
            (i ∷ visible txn rest)
    ended : (inner : Entries) → Stands (record { peeked = some (ok none); inner = inner }) []

  -- The first item is at a place of the list, and the iterator goes on behind it.
  abbrev Behind : List Item → Peekable → Type 0
  Behind [] iter = Unit
  Behind (i ∷ ws) iter =
      (rest : List Item) × (ws ≡ visible txn rest)
      × (is_visible txn i.1 ≡ true)
      × Suffix (i ∷ rest) all
      × (iter ≡ fresh rest)

  abbrev NextOf : List Item → Next × Peekable → Type 0
  NextOf vs (found, iter) = (found ≡ ok (first? vs)) × Behind vs iter

  abbrev PeekOf : List Item → Next × Peekable → Type 0
  PeekOf vs (found, iter) = (found ≡ ok (first? vs)) × Stands iter vs

  module _ (fits : All FitsItem all) where
    Found-NextOf :
        (items : List Item) (r : Next × Entries)
        → Suffix items all
        → Found txn items r
        → NextOf (visible txn items) (r.0, record { peeked = none; inner = r.1 })
    Found-NextOf items r s (nothing e) = rw e (refl, tt)
    Found-NextOf items r s (item i rest v e t) =
        rw e (refl, (rest, refl, v, Suffix-trans t s, refl))

    Found-PeekOf :
        (items : List Item) (r : Next × Entries)
        → Suffix items all
        → Found txn items r
        → PeekOf (visible txn items) (r.0, record { peeked = some r.0; inner = r.1 })
    Found-PeekOf items r s (nothing e) = rw e (refl, ended [])
    Found-PeekOf items r s (item i rest v e t) = rw e (refl, held i rest v (Suffix-trans t s))

    next-NextOf : (iter : Peekable) (vs : List Item) → Stands iter vs → NextOf vs (next txn iter)
    unfolding next next_peeked
    next-NextOf iter vs (anew items s) =
        Found-NextOf items _ s (try_next-Found txn items (Suffix-All FitsItem s fits))
    next-NextOf iter vs (held i rest v s) = (refl, (rest, refl, v, s, refl))
    next-NextOf iter vs (ended inner) = (refl, tt)

    peek-PeekOf :
        (items : List Item) → Suffix items all → PeekOf (visible txn items) (peek txn (fresh items))
    unfolding peek peek_peeked
    peek-PeekOf items s =
        Found-PeekOf items _ s (try_next-Found txn items (Suffix-All FitsItem s fits))

module _ (values : Codec (Option Bytes) (λ _. Unit {0})) where
  -- Whether the next item is another version of the key.
  abbrev superseded : Bytes → List Item → Bool
  superseded key [] = false
  superseded key ((other, _, _) ∷ _) = eq_bytes other key

  abbrev emit : Bytes → Option Bytes → Entries → Entries
  emit key none rows = rows
  emit key (some value) rows = (key, value) ∷ rows

  -- The rows of a list of visible versions: of each key the last version, unless it is deleted.
  unfoldable pub live : List Item → Result Entries
  live [] = ok []
  live ((key, v, value) ∷ rest) =
      let later = live rest in
      if superseded key rest
      then later
      else values.decode value >>= λ decoded. later >>= λ rows. ok (emit key decoded rows)

  -- Rows before those of a result.
  abbrev pub before : Entries → Result Entries → Result Entries
  before rows result = result >>= λ later. ok (rows ++ later)

  pub before-before :
      (xs ys : Entries) (r : Result Entries) → before xs (before ys r) ≡ before (xs ++ ys) r
  before-before xs ys panic = refl
  before-before xs ys (err e) = refl
  before-before xs ys (ok zs) = ap ok (sym (append_assoc xs ys zs))

  module _ (buffer_size : ℕ) (txn : TransactionState) (all : List Item) (hi : Bound Bytes) where
    -- The visible items that are left for a remainder: those of a range from an item on.
    abbrev pub Left : Option (Bound Bytes × Bound Bytes) → List Item → Type 0
    Left none ws = ws ≡ []
    Left (some range) ws =
        (i : Item) × (rest : List Item) × (range ≡ (included (entry i).0, hi))
        × (is_visible txn i.1 ≡ true)
        × Suffix (i ∷ rest) all
        × (ws ≡ i ∷ visible txn rest)

    -- What filling the buffer comes to, for the visible items that are left.
    pub data FilledAs (vs : List Item) (buffer : Entries) : Filled → Type 0 where
      panics : (s : ScanIterator) → live vs ≡ panic → FilledAs vs buffer (panic, s)
      fails : (e : Error) (s : ScanIterator) → live vs ≡ err e → FilledAs vs buffer (err e, s)
      fills :
          (new : Entries) (ws : List Item) (s : ScanIterator)
          → live vs ≡ before new (live ws)
          → s.txn ≡ txn
          → s.buffer ≡ buffer ++ new
          → Left s.remainder ws
          → length new + length ws ≤ length vs
          → (s.remainder ≡ none) ⊎ (length s.buffer ≡ buffer_size)
          → FilledAs vs buffer (ok tt, s)

    FilledAs-skip :
        (vs ws : List Item) (buffer : Entries) {r : Filled}
        → live vs ≡ live ws
        → length ws ≤ length vs
        → FilledAs ws buffer r
        → FilledAs vs buffer r
    FilledAs-skip vs ws buffer h k (panics s e) = panics s (h ∙ e)
    FilledAs-skip vs ws buffer h k (fails x s e) = fails x s (h ∙ e)
    FilledAs-skip vs ws buffer h k (fills new us s e t b l n f) =
        fills new us s (h ∙ e) t b l (omega (arith, n, k)) f

    FilledAs-push :
        (vs ws : List Item) (buffer : Entries) (row : Bytes × Bytes) {r : Filled}
        → live vs ≡ before (row ∷ []) (live ws)
        → length ws < length vs
        → FilledAs ws (buffer ++ (row ∷ [])) r
        → FilledAs vs buffer r
    FilledAs-push vs ws buffer row h k (panics s e) = panics s (h ∙ rw e refl)
    FilledAs-push vs ws buffer row h k (fails x s e) = fails x s (h ∙ rw e refl)
    FilledAs-push vs ws buffer row h k (fills new us s e t b l n f) =
        fills (row ∷ new) us s
          (h ∙ ap (before (row ∷ [])) e ∙ before-before (row ∷ []) new (live us)) t
          (b ∙ append_assoc buffer (row ∷ []) new) l (omega (arith, n, k)) f

    -- The last row that fits into the buffer.
    save-FilledAs :
        (vs ws : List Item) (row : Bytes × Bytes) (buffer : Entries) (self : ScanIterator)
        (r : Next × Peekable)
        → live vs ≡ before (row ∷ []) (live ws)
        → length ws < length vs
        → self.txn ≡ txn
        → self.remainder ≡ none
        → self.buffer ≡ buffer ++ (row ∷ [])
        → length self.buffer ≡ buffer_size
        → NextOf txn all ws r
        → FilledAs vs buffer (save_remainder hi r.0 self)
    unfolding save_remainder
    save-FilledAs vs [] row buffer self r h k t empty b full (e, _) =
        rw e (fills (row ∷ []) [] self h t b (rw empty refl) (omega (arith, k)) (inr full))
    save-FilledAs vs (i ∷ ws) row buffer self r h k t empty b full (e, (rest, w, v, s, _)) = rw e (
        fills (row ∷ []) (i ∷ ws) (record self { remainder = some (included (entry i).0, hi) }) h t
          b (i, rest, refl, v, s, ap (λ us. i ∷ us) w) (omega (arith, k)) (inr full))

    module _ (fits : All FitsItem all) (loop : Peekable → ScanIterator → Filled) (rounds : ℕ) where
      -- The loop does its part for fewer items than rounds.
      abbrev LoopOk : Type 0
      LoopOk =
          (iter : Peekable) (vs : List Item) (self : ScanIterator)
          → Stands txn all iter vs
          → length vs < rounds
          → self.txn ≡ txn
          → self.remainder ≡ none
          → FilledAs vs self.buffer (loop iter self)

      push_live-FilledAs :
          (vs ws : List Item) (key : Bytes) (decoded : Result (Option Bytes)) (iter : Peekable)
          (self : ScanIterator)
          → LoopOk
          → Stands txn all iter ws
          → live vs ≡ (decoded >>= λ d. live ws >>= λ rows. ok (emit key d rows))
          → length ws < length vs
          → length ws < rounds
          → self.txn ≡ txn
          → self.remainder ≡ none
          → FilledAs vs self.buffer (push_live buffer_size values hi loop key decoded iter self)
      unfolding push_live
      push_live-FilledAs vs ws key panic iter self l s h k n t empty = panics self h
      push_live-FilledAs vs ws key (err e) iter self l s h k n t empty = fails e self h
      push_live-FilledAs vs ws key (ok none) iter self l s h k n t empty =
          FilledAs-skip vs ws self.buffer (h ∙ >>=-ok (live ws)) (omega (arith, k))
            (l iter ws self s n t empty)
      push_live-FilledAs vs ws key (ok (some value)) iter self l s h k n t empty =
          let row : Bytes × Bytes = (key, value) in
          let pushed : ScanIterator = record self { buffer = self.buffer ++ (row ∷ []) } in
          elim (Bool-cases (length pushed.buffer == buffer_size)) [
            | inl e ↦ rw e (
                save-FilledAs vs ws row self.buffer pushed (next self.txn iter) h k t empty refl
                  (ground (arith, e))
                  (subst (λ u. NextOf txn all ws (next u iter)) (sym t)
                    (next-NextOf txn all fits iter ws s)))
            | inr e ↦ rw e (FilledAs-push vs ws self.buffer row h k (l iter ws pushed s n t empty))
          ]

      unless_newer-FilledAs :
          (i : Item) (ws : List Item) (peeked : Next) (iter : Peekable) (self : ScanIterator)
          → LoopOk
          → PeekOf txn all ws (peeked, iter)
          → length ws < rounds
          → self.txn ≡ txn
          → self.remainder ≡ none
          → FilledAs
              (i ∷ ws)
              self.buffer
              (unless_newer buffer_size values hi loop i.0 i.2 peeked iter self)
      unfolding unless_newer live
      unless_newer-FilledAs i [] peeked iter self l (e, s) n t empty = rw e (
          push_live-FilledAs (i ∷ []) [] i.0 (values.decode i.2) iter self l s refl (omega arith) n
            t empty)
      unless_newer-FilledAs i (j ∷ ws) peeked iter self l (e, s) n t empty =
          rw e (elim (Bool-cases (eq_bytes j.0 i.0)) [
            | inl same ↦ rw same (
                FilledAs-skip (i ∷ j ∷ ws) (j ∷ ws) self.buffer (rw same refl) (omega arith)
                  (l iter (j ∷ ws) self s n t empty))
            | inr other ↦ rw other (
                push_live-FilledAs (i ∷ j ∷ ws) (j ∷ ws) i.0 (values.decode i.2) iter self l s
                  (rw other refl) (omega arith) n t empty)
          ])

      take_item-FilledAs :
          (vs : List Item) (r : Next × Peekable) (self : ScanIterator)
          → LoopOk
          → NextOf txn all vs r
          → length vs < suc rounds
          → self.txn ≡ txn
          → self.remainder ≡ none
          → FilledAs vs self.buffer (take_item buffer_size values hi loop r.0 r.1 self)
      unfolding take_item live
      take_item-FilledAs [] r self l (e, _) n t empty = rw e (
          fills [] [] self refl t (sym (append-nil self.buffer)) (rw empty refl) (omega arith)
            (inl empty))
      take_item-FilledAs (i ∷ ws) r self l (e, (rest, w, v, s, iter)) n t empty =
          rw (e, iter)
            (unless_newer-FilledAs i ws (peek self.txn (fresh rest)).0
              (peek self.txn (fresh rest)).1 self l
              (subst (λ u. PeekOf txn all ws (peek u (fresh rest))) (sym t)
                (rw w (peek-PeekOf txn all fits rest (Suffix-tail s))))
              (omega (arith, n)) t empty)

    pub fill_loop-FilledAs :
        (fits : All FitsItem all) (rounds : ℕ) (iter : Peekable) (vs : List Item)
        (self : ScanIterator)
        → Stands txn all iter vs
        → length vs < rounds
        → self.txn ≡ txn
        → self.remainder ≡ none
        → FilledAs vs self.buffer (fill_loop buffer_size values rounds hi iter self)
    unfolding fill_loop
    fill_loop-FilledAs fits zero iter vs self s n t empty = absurd (omega (arith, n))
    fill_loop-FilledAs fits (suc rounds) iter vs self s n t empty =
        take_item-FilledAs fits (fill_loop buffer_size values rounds hi) rounds vs
          (next self.txn iter) self (fill_loop-FilledAs fits rounds)
          (subst (λ u. NextOf txn all vs (next u iter)) (sym t)
            (next-NextOf txn all fits iter vs s))
          n t empty
