-- ===== src/Raft/Node/Quorum.antt =====
-- src/raft/node.rs: the quorum of a cluster, and what a leader knows of its peers.
use toydb.Prelude.{
  ℕ, zero, suc, ◌+◌, ◌/◌, ◌*◌, ◌-◌, ◌<◌, ◌≤◌, ◌≡◌, max, min, ltb, refl, ap, ◌∙◌, inl, inr,
  Bool-cases, some, List, [], ◌∷◌, length, arith, leb, ==_iff, if◌then◌else◌, All,
}
use toydb.Error.{ok}
use toydb.Encoding.Keycode.{u64_mod}
use toydb.Raft.Log.{Entry, Index, NodeId}
use toydb.Raft.Node.Leader.{sent}
use toydb.Raft.Message.{ReadSequence}
use toydb.Raft.Node.Progress.{
  Progress, IsTracked, advance, advance_read, regress_next, cluster_size, quorum_size, quorum_value,
  descending, insert_descending, nth,
}

-- How many of the values are at least `q`.
pub count : ℕ → List ℕ → ℕ
count q [] = 0
count q (v ∷ vs) = let rest = count q vs in if leb q v then suc rest else rest

pub IsDescending : List ℕ → Type 0
IsDescending [] = Unit
IsDescending (v ∷ vs) = All (λ w. w ≤ v) vs × IsDescending vs

count-insert_descending :
    (q v : ℕ) (ws : List ℕ) → count q (insert_descending v ws) ≡ count q (v ∷ ws)
unfolding insert_descending count
count-insert_descending q v [] = refl
count-insert_descending q v (w ∷ ws) = ground (arith, count-insert_descending q v ws)

count-descending : (q : ℕ) (vs : List ℕ) → count q (descending vs) ≡ count q vs
unfolding descending count
count-descending q [] = refl
count-descending q (v ∷ vs) =
    count-insert_descending q v (descending vs) ∙ ground (arith, count-descending q vs)

length-insert_descending : (v : ℕ) (ws : List ℕ) → length (insert_descending v ws) ≡ suc (length ws)
unfolding insert_descending
length-insert_descending v [] = refl
length-insert_descending v (w ∷ ws) = ground (arith, length-insert_descending v ws)

length-descending : (vs : List ℕ) → length (descending vs) ≡ length vs
unfolding descending
length-descending [] = refl
length-descending (v ∷ vs) =
    length-insert_descending v (descending vs) ∙ ap suc (length-descending vs)

All-insert_descending :
    (b v : ℕ) (ws : List ℕ)
    → v ≤ b
    → All (λ w. w ≤ b) ws
    → All (λ w. w ≤ b) (insert_descending v ws)
unfolding insert_descending
All-insert_descending b v [] h k = (h, tt)
All-insert_descending b v (w ∷ ws) h k = elim (Bool-cases (leb w v)) [
  | inl before ↦ rw before (h, k)
  | inr after ↦ rw after (k.0, All-insert_descending b v ws h k.1)
]

All-below : (a b : ℕ) (ws : List ℕ) → a ≤ b → All (λ w. w ≤ a) ws → All (λ w. w ≤ b) ws
All-below a b [] h k = tt
All-below a b (w ∷ ws) h k = (omega (arith, h, k.0), All-below a b ws h k.1)

insert_descending-IsDescending :
    (v : ℕ) (ws : List ℕ) → IsDescending ws → IsDescending (insert_descending v ws)
unfolding insert_descending IsDescending
insert_descending-IsDescending v [] h = (tt, tt)
insert_descending-IsDescending v (w ∷ ws) h = elim (Bool-cases (leb w v)) [
  | inl before ↦
      let below : w ≤ v = ground (arith, before) in
      rw before ((below, All-below w v ws below h.0), h)
  | inr after ↦
      let below : v ≤ w = ground (arith, after) in
      rw after (All-insert_descending w v ws below h.0, insert_descending-IsDescending v ws h.1)
]

descending-IsDescending : (vs : List ℕ) → IsDescending (descending vs)
unfolding descending IsDescending
descending-IsDescending [] = tt
descending-IsDescending (v ∷ vs) =
    insert_descending-IsDescending v (descending vs) (descending-IsDescending vs)

nth-All : (b n q : ℕ) (ws : List ℕ) → All (λ w. w ≤ b) ws → nth n ws ≡ some q → q ≤ b
nth-All b n q [] h e = absurd (cc e)
nth-All b zero q (w ∷ ws) h e = let same : w ≡ q = cc (e) in omega (arith, h.0, same)
nth-All b (suc n) q (w ∷ ws) h e = nth-All b n q ws h.1 e

-- The values up to a place of a descending list are at least the one there.
nth-count : (n q : ℕ) (ws : List ℕ) → IsDescending ws → nth n ws ≡ some q → n < count q ws
unfolding IsDescending count
nth-count n q [] h e = absurd (cc e)
nth-count zero q (w ∷ ws) h e = let same : w ≡ q = cc (e) in ground (arith, same)
nth-count (suc n) q (w ∷ ws) h e =
    let below : q ≤ w = nth-All w n q ws h.0 e in ground (arith, below, nth-count n q ws h.1 e)

nth-some : (n : ℕ) (ws : List ℕ) → n < length ws → (q : ℕ) × (nth n ws ≡ some q)
nth-some n [] h = absurd (omega (arith, h))
nth-some zero (w ∷ ws) h = (w, refl)
nth-some (suc n) (w ∷ ws) h = nth-some n ws (omega (arith, h))

-- For a value of each node of a cluster, the quorum value exists, and a strict majority of the
-- nodes have at least that value.
pub quorum_value-majority :
    (peers : List NodeId) (values : List ℕ)
    → length values ≡ cluster_size peers
    → (q : ℕ) × (quorum_value peers values ≡ ok q)
      × (quorum_size peers ≤ count q values)
      × (cluster_size peers < 2 * count q values)
unfolding quorum_value quorum_size cluster_size
quorum_value-majority peers values h =
    let n = (length peers + 1) / 2 in
    let (q, at) = nth-some n (descending values) (omega (arith, h, length-descending values)) in
    let enough : n < count q values = omega (
      arith,
      nth-count n q (descending values) (descending-IsDescending values) at,
      count-descending q values,
    ) in
    let place : quorum_size peers - 1 ≡ n = omega arith in
    (
      q,
      rw ((==_iff (length values) (length peers + 1)).1 h, place, at) refl,
      omega (arith, enough),
      omega (arith, enough),
    )

advance_read-max :
    (seq : ReadSequence) (p : Progress)
    → (advance_read seq p).1 ≡ record p { read_seq = max p.read_seq seq }
unfolding advance_read
advance_read-max seq p = elim (Bool-cases (leb seq p.read_seq)) [
  | inl stale ↦
      let same : max p.read_seq seq ≡ p.read_seq = ground (arith, stale) in rw (stale, same) refl
  | inr newer ↦ let same : max p.read_seq seq ≡ seq = ground (arith, newer) in rw (newer, same) refl
]

-- The updates of the progress of a peer whose match index is below the next one, when the given
-- index fits, and the last entry that is sent is not before the next one and fits. Each keeps the
-- match index below the next one. An advance raises the match index to the given index and the
-- next index to the one after it, where these are greater. A read sequence rises to the given
-- one, and the indexes stay. A regression lowers the next index to the given one, but not below
-- the one after the match index, which stays. Sending moves the next index behind the last entry.
pub progress-IsTracked :
    (p : Progress) (index : Index) (seq : ReadSequence) (last : Entry)
    → IsTracked p
    → index + 1 < u64_mod
    → p.next_index ≤ last.index
    → last.index + 1 < u64_mod
    → (IsTracked (advance index p).1
        × ((advance index p).1.match_index ≡ max p.match_index index)
        × ((advance index p).1.next_index ≡ max p.next_index (index + 1))
        × ((advance index p).0 ≡ ltb p.match_index index))
      × (((advance_read seq p).1 ≡ record p { read_seq = max p.read_seq seq })
          × ((advance_read seq p).0 ≡ ltb p.read_seq seq))
      × (IsTracked (regress_next index p).1
          × ((regress_next index p).1.match_index ≡ p.match_index)
          × ((regress_next index p).1.next_index ≡ min p.next_index (max index (p.match_index + 1)))
          × ((regress_next index p).0 ≡ ltb (max index (p.match_index + 1)) p.next_index))
      × (IsTracked (sent (some last) p)
          × ((sent (some last) p).match_index ≡ p.match_index)
          × ((sent (some last) p).next_index ≡ last.index + 1))
unfolding advance advance_read regress_next sent
progress-IsTracked p index seq last h fits behind room = (
  (
    record { ahead = ground (arith, h.ahead, fits); fits = ground (arith, h.fits, fits) },
    ground arith,
    ground (arith, h.ahead, fits),
    ground arith,
  ),
  (advance_read-max seq p, ground arith),
  (
    record { ahead = ground (arith, h.ahead, h.fits); fits = ground (arith, h.ahead, h.fits) },
    ground (arith, h.ahead, h.fits),
    ground (arith, h.ahead, h.fits),
    ground (arith, h.ahead, h.fits),
  ),
  (
    record { ahead = omega (arith, h.ahead, behind, room); fits = omega (arith, room) },
    refl,
    omega (arith, room),
  ),
)
