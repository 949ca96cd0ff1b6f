-- ===== src/Storage/Mvcc/Scan/Rows.antt =====
-- src/storage/mvcc.rs: a buffered scan returns the live rows of its range.
use toydb.Prelude.{
  ℕ, zero, suc, ◌+◌, ◌<◌, ◌≤◌, ◌≡◌, ◌⊎◌, refl, sym, ap, ◌∙◌, subst, true, false, Option, none, some,
  List, [], ◌∷◌, map, length, leb, ◌==◌, All, inl, inr, Bool-cases, arith,
}
use toydb.Error.{Error, ok, err, panic, >>=-ok}
use toydb.Encoding.Bytes.{Bytes, Bound, Range}
use toydb.Encoding.Codec.{Codec}
use toydb.Storage.BTreeMap.{range, IsAscending}
use toydb.Storage.Memory
use toydb.Storage.Memory.{Memory}
use toydb.Storage.Mvcc.{TransactionState}
use toydb.Storage.Mvcc.Scan.{
  Item, Entries, ScanIterator, Filled, pop_front, pop_filled, fill_scanned, fill_remainder,
  fill_loop, fill_buffer, next_row, row_and, collect,
}
use toydb.Storage.Mvcc.Scan.Versions.{entry, FitsItem, Suffix-All, whole, visible}
use toydb.Storage.Mvcc.Scan.Fill.{
  live, before, FilledAs, panics, fails, fills, Left, before-before, fill_loop-FilledAs, anew,
}
use toydb.Storage.Mvcc.Scan.Reopen.{range-Suffix}

length-map : (items : List Item) → length (map entry items) ≡ length items
length-map [] = refl
length-map (i ∷ items) = omega (arith, length-map items)

module _ (buffer_size : ℕ) (values : Codec (Option Bytes) (λ _. Unit {0}))
    (txn : TransactionState) where
  length-visible : (items : List Item) → length (visible txn items) ≤ length items
  length-visible [] = omega arith
  length-visible (i ∷ items) = ground (arith, length-visible items)

  module _ (m : Memory) (ascending : IsAscending m) (size : 1 ≤ buffer_size) where
    -- The visible items that a remainder still has in the engine.
    abbrev pub Waiting : Option Range → List Item → Type 0
    Waiting none ws = ws ≡ []
    Waiting (some r) ws =
        (items : List Item) × (range r m ≡ ok (map entry items))
        × All FitsItem items
        × (ws ≡ visible txn items)

    Left-Waiting :
        (lo hi : Bound Bytes) (items : List Item) (remainder : Option Range) (ws : List Item)
        → range (lo, hi) m ≡ ok (map entry items)
        → All FitsItem items
        → Left values buffer_size txn items hi remainder ws
        → Waiting remainder ws
    Left-Waiting lo hi items none ws h f l = l
    Left-Waiting lo hi items (some r) ws h f (i, rest, e, v, s, w) = (
      i ∷ rest,
      rw e (range-Suffix lo hi m i rest items ascending h s),
      Suffix-All FitsItem s f,
      w ∙ sym (rw v refl),
    )

    -- What filling an empty buffer comes to.
    data Refilled (ws : List Item) : Filled → Type 0 where
      panicked : (s : ScanIterator) → live values ws ≡ panic → Refilled ws (panic, s)
      failed : (e : Error) (s : ScanIterator) → live values ws ≡ err e → Refilled ws (err e, s)
      refilled :
          (us : List Item) (s : ScanIterator)
          → live values ws ≡ before values s.buffer (live values us)
          → s.txn ≡ txn
          → Waiting s.remainder us
          → length s.buffer + length us ≤ length ws
          → (s.buffer ≡ [] → us ≡ [])
          → Refilled ws (ok tt, s)

    drained :
        (hi : Bound Bytes) (items us : List Item) (s : ScanIterator)
        → Left values buffer_size txn items hi s.remainder us
        → (s.remainder ≡ none) ⊎ (length s.buffer ≡ buffer_size)
        → s.buffer ≡ []
        → us ≡ []
    drained hi items us s l (inl e) b = subst (λ r. Left values buffer_size txn items hi r us) e l
    drained hi items us s l (inr e) b =
        let none_in : length s.buffer ≡ 0 = ap (λ (rows : Entries). length rows) b in
        absurd (omega (arith, e, size, none_in))

    refill :
        (lo hi : Bound Bytes) (items : List Item) (r : Filled)
        → range (lo, hi) m ≡ ok (map entry items)
        → All FitsItem items
        → FilledAs values buffer_size txn items hi (visible txn items) [] r
        → Refilled (visible txn items) r
    refill lo hi items r h f (panics s e) = panicked s e
    refill lo hi items r h f (fails x s e) = failed x s e
    refill lo hi items r h f (fills new us s e t b l n d) =
        refilled us s (rw b e) t (Left-Waiting lo hi items s.remainder us h f l) (rw b n)
          (drained hi items us s l d)

    fill_remainder-Refilled :
        (remainder : Option Range) (ws : List Item) (self : ScanIterator)
        → Waiting remainder ws
        → self.txn ≡ txn
        → self.buffer ≡ []
        → self.remainder ≡ remainder
        → Refilled ws (fill_remainder buffer_size values m remainder self)
    unfolding fill_remainder fill_scanned Memory.scan
    fill_remainder-Refilled none ws self w t b r =
        refilled ws self (sym (>>=-ok (live values ws)) ∙ rw b refl) t (rw r w) (rw b (omega arith))
          (λ _. w)
    fill_remainder-Refilled (some (lo, hi)) ws self (items, h, f, w) t b r =
        let cleared : ScanIterator = record self { remainder = none } in
        let rounds = suc (length (map entry items)) in
        let enough : length (visible txn items) < rounds =
          omega (arith, length-visible items, length-map items) in
        let filled =
          fill_loop-FilledAs values buffer_size txn items hi f rounds _ _ cleared (anew items whole)
            enough t refl in
        rw (h, w)
          (refill lo hi items _ h f (
            subst
              (λ buffer. FilledAs values buffer_size txn items hi (visible txn items) buffer (
                fill_loop buffer_size values rounds hi
                  (record { peeked = none; inner = map entry items }) cleared))
              b filled))

    -- What a call returns is the first of the rows, and the iterator keeps the others.
    abbrev Rows : ScanIterator → List Item → Type 0
    Rows self ws = (self.txn ≡ txn) × Waiting self.remainder ws

    abbrev CollectOk : ℕ → Type 0
    CollectOk n =
        (self : ScanIterator) (ws : List Item)
        → Rows self ws
        → length self.buffer + length ws < n
        → collect buffer_size values n m self ≡ before values self.buffer (live values ws)

    -- The row at the front of a buffer, and then the others.
    popped-rows :
        (n : ℕ) (rows : Entries) (self : ScanIterator) (ws : List Item)
        → CollectOk n
        → Rows self ws
        → length rows + length ws ≤ n
        → (rows ≡ [] → ws ≡ [])
        → row_and buffer_size values
            (pop_front rows self).0
            (collect buffer_size values n m (pop_front rows self).1)
          ≡ before values rows (live values ws)
    unfolding pop_front row_and live
    popped-rows n [] self ws c r k d = rw (d refl) refl
    popped-rows n (row ∷ rows) self ws c r k d =
        rw (c (record self { buffer = rows }) ws r (omega (arith, k)))
          (before-before values (row ∷ []) rows (live values ws))

    Refilled-rows :
        (n : ℕ) (ws : List Item) (r : Filled)
        → CollectOk n
        → length ws ≤ n
        → Refilled ws r
        → row_and buffer_size values
            (pop_filled buffer_size values r.0 r.1).0
            (collect buffer_size values n m (pop_filled buffer_size values r.0 r.1).1)
          ≡ live values ws
    unfolding pop_filled row_and
    Refilled-rows n ws r c k (panicked s e) = sym e
    Refilled-rows n ws r c k (failed x s e) = sym e
    Refilled-rows n ws r c k (refilled us s e t w l d) =
        popped-rows n s.buffer s us c (t, w) (omega (arith, l, k)) d ∙ sym e

    length-zero : (rows : Entries) → (length rows == 0) ≡ true → rows ≡ []
    length-zero [] h = refl
    length-zero (row ∷ rows) h = absurd (ground (arith, h))

    length-suc : (rows : Entries) → (length rows == 0) ≡ false → rows ≡ [] → ⊥
    length-suc [] h e = cc h
    length-suc (row ∷ rows) h e = cc e

    fill_buffer-Refilled :
        (ws : List Item) (self : ScanIterator)
        → Rows self ws
        → self.buffer ≡ []
        → Refilled ws (fill_buffer buffer_size values m self)
    unfolding fill_buffer
    fill_buffer-Refilled ws self (t, w) b =
        let empty : length self.buffer ≡ 0 = ap (λ (rows : Entries). length rows) b in
        let room : leb buffer_size (length self.buffer) ≡ false = ground (arith, empty, size) in
        rw room (fill_remainder-Refilled self.remainder ws self w t b refl)

    collect-CollectOk : (n : ℕ) → CollectOk n
    unfolding collect next_row
    collect-CollectOk zero self ws r k = absurd (omega (arith, k))
    collect-CollectOk (suc n) self ws r k = elim (Bool-cases (length self.buffer == 0)) [
      | inl e ↦
          let b = length-zero self.buffer e in
          let filled = fill_buffer-Refilled ws self r b in
          rw e (
            Refilled-rows n ws (fill_buffer buffer_size values m self) (collect-CollectOk n)
              (omega (arith, k)) filled
            ∙ sym (>>=-ok (live values ws))
            ∙ ap (λ rows. before values rows (live values ws)) (sym b))
      | inr e ↦ rw e (
          popped-rows n self.buffer self ws (collect-CollectOk n) r (omega (arith, k))
            (λ b. absurd (length-suc self.buffer e b)))
    ]

  -- A scan that may take some rows at a time into its buffer, called once more than there are
  -- visible versions or more often, on an engine whose entries in the range are versions, returns
  -- the last visible version of each key, in the order of the keys, unless that is a deletion,
  -- or the error of the first value that does not decode.
  pub collect-live :
      (m : Memory) (r : Range) (items : List Item) (calls : ℕ)
      → IsAscending m
      → 1 ≤ buffer_size
      → range r m ≡ ok (map entry items)
      → All FitsItem items
      → length (visible txn items) < calls
      → collect buffer_size values calls m (record { txn = txn; buffer = []; remainder = some r })
        ≡ live values (visible txn items)
  collect-live m r items calls a s h f k =
      collect-CollectOk m a s calls (record { txn = txn; buffer = []; remainder = some r })
        (visible txn items) (refl, (items, h, f, refl)) (omega (arith, k))
      ∙ >>=-ok (live values (visible txn items))
