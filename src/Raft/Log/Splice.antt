-- ===== src/Raft/Log/Splice.antt =====
-- src/raft/log.rs: `splice` replaces the tail of the log, and keeps the committed entries.
use toydb.Prelude.{
  ◌+◌, ◌-◌, ◌<◌, ◌≤◌, ◌≡◌, refl, sym, ap, subst, ◌∙◌, Bool-cases, ◌&&◌, none, some, List, [], ◌∷◌,
  arith, ltb, leb, if◌then◌else◌, All, All-In, inl, inr,
}
use toydb.Error.{ok}
use toydb.Encoding.Bytes.{Bytes}
use toydb.Encoding.Keycode.{u64_mod}
use toydb.Raft.Log.Stored.{stored, write_all, stored-delete_all, stored-write_all, Written}
use toydb.Raft.Log.Spliced.{Fits, Rising, Between, is_contiguous-Rising, skip_present-keeps}
use toydb.Raft.Log.Outcome.{spliced, splice_rest-cases, splice_between-cases}
use toydb.Raft.Log.Safety.{Inv, Safe, Safe-same, decoded}
use toydb.Raft.Log.{Log, Entry, Bincode, Index, increment, splice, splice_rest, last_or}

All-map : (P Q : Entry → Type 0) (es : List Entry) → ((e : Entry) → P e → Q e) → All P es → All Q es
All-map P Q [] f h = tt
All-map P Q (e ∷ es) f h = (f e h.0, All-map P Q es f h.1)

module _ (bincode : Bincode) where
  open bincode use {entries}

  -- The log after entries from `first` to `last` are written and the later ones deleted.
  module _ (log : Log) (first last : Entry) (es : List Entry) (inv : Inv bincode log)
      (room : last.index + 1 < u64_mod) (between : Between first.index last.index es)
      (order : log.commit_index < first.index) (rises : first.index ≤ last.index) where
    after_writes :
        (i : Index)
        → i < u64_mod
        → Written bincode es i (stored i log.engine) (stored i (write_all bincode es log.engine))
    after_writes i h =
        stored-write_all bincode es i log.engine
          (All-map (λ e. (first.index ≤ e.index) × (e.index ≤ last.index)) (λ e. e.index < u64_mod)
            es (λ e p. omega (arith, p.1, room)) between)
          h

    after_deletes :
        (i : Index)
        → i < u64_mod
        → stored i (spliced bincode last es log).engine ≡ (
            if leb (last.index + 1) i && ltb i (last.index + 1 + (log.last_index - last.index))
            then none
            else stored i (write_all bincode es log.engine))
    after_deletes i h =
        let next : increment last.index ≡ last.index + 1 = omega (arith, room) in
        let many : log.last_index + 1 - (last.index + 1) ≡ log.last_index - last.index =
          omega arith in
        rw (next, many)
          (stored-delete_all (log.last_index - last.index) (last.index + 1) i _
            (omega (arith, room, inv.fits)) h)

    kept :
        (i : Index)
        → i ≤ log.commit_index
        → stored i (spliced bincode last es log).engine ≡ stored i log.engine
    kept i h =
        let fits : i < u64_mod = omega (arith, h, inv.bounded, inv.fits) in
        elim (after_writes i fits) [
          | inl same ↦ rw (after_deletes i fits) (ground (arith, same, order, h, rises))
          | inr (e, is_in, at, _) ↦
              let p =
                All-In (λ e. (first.index ≤ e.index) × (e.index ≤ last.index)) is_in between in
              absurd (omega (arith, at, p.0, order, h))
        ]

    placed :
        (i : Index) (v : Bytes) (e : Entry)
        → i < u64_mod
        → stored i (spliced bincode last es log).engine ≡ some v
        → entries.decode v ≡ ok e
        → (e.index ≡ i) × (i ≤ last.index)
    placed i v e h s d =
        elim (Bool-cases
          (leb (last.index + 1) i && ltb i (last.index + 1 + (log.last_index - last.index)))) [
            | inl gone ↦ absurd (cc (rw gone at (after_deletes i h), s))
            | inr stays ↦
                let written = sym (rw stays at (after_deletes i h)) ∙ s in
                elim (after_writes i h) [
                  | inl same ↦
                      let (q, b) = inv.placed i v e h (sym same ∙ written) d in
                      (q, ground (arith, b, stays))
                  | inr (f, is_in, at, stored_f) ↦
                      let p =
                        All-In (λ e. (first.index ≤ e.index) × (e.index ≤ last.index)) is_in
                          between in
                      let index =
                        ap (λ (g : Entry). g.index) (decoded bincode _ v f e stored_f written d) in
                      (index ∙ at, omega (arith, at, p.1))
                ]
          ]

    pub spliced-Safe : Safe bincode log (spliced bincode last es log)
    spliced-Safe = (
      record { fits = room; bounded = omega (arith, order, rises); placed = placed },
      record { term = omega arith; vote = λ _. inr refl; commit = omega arith; kept = kept },
    )

  splice_rest-Safe :
      (last : Entry) (es : List Entry) (log : Log)
      → Inv bincode log
      → last.index + 1 < u64_mod
      → Rising last.index es
      → Safe bincode log (splice_rest bincode last es log).1
  splice_rest-Safe last es log inv room rising = elim (splice_rest-cases bincode last es log) [
    | inl same ↦ Safe-same bincode _ _ inv same
    | inr (first, rest, is_first, order, changed) ↦
        let between : Between first.index last.index es =
          subst (λ l. Between first.index last.index l) (sym is_first)
            (subst (Rising last.index) is_first rising).0 in
        let rises = (subst (Rising last.index) is_first rising).0.0.1 in
        subst (Safe bincode log) (sym changed)
          (spliced-Safe log first last es inv room between order rises)
  ]

  pub splice-Safe :
      (es : List Entry) (log : Log)
      → Inv bincode log
      → Fits es
      → Safe bincode log (splice bincode es log).1
  unfolding splice
  splice-Safe [] log inv fits = Safe-same bincode _ _ inv refl
  splice-Safe (e ∷ es) log inv fits =
      let last = last_or e es in
      elim (splice_between-cases bincode e last (e ∷ es) log) [
        | inl same ↦ Safe-same bincode _ _ inv same
        | inr (present, rest, contiguous, skipped, q) ↦
            let rising = is_contiguous-Rising e es contiguous fits in
            subst (Safe bincode log) (sym q) (
              splice_rest-Safe last rest log inv (last_or-room e es fits) (
                skip_present-keeps bincode (Rising last.index) (λ f fs h. h.1) present (e ∷ es) rest
                  rising skipped))
      ]
    where
      last_or-room :
          (f : Entry) (fs : List Entry) → Fits (f ∷ fs) → (last_or f fs).index + 1 < u64_mod
      last_or-room f [] h = h.0
      last_or-room f (g ∷ gs) h = last_or-room g gs h.1
