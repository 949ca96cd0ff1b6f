-- ===== src/Raft/Log/Spliced.antt =====
-- src/raft/log.rs: which entries `splice` writes, of those that it is given.
use toydb.Prelude.{
  ℕ, ◌+◌, ◌<◌, ◌≤◌, ◌≡◌, subst, Bool-cases, true, List, [], ◌∷◌, arith, ◌==◌, All, ==_iff, inl, inr,
}
use toydb.Error.{ok, >>=-eq-ok, panic-ne, ok_injective}
use toydb.Encoding.Bytes.{Bytes}
use toydb.Encoding.Keycode.{u64_mod}
use toydb.Raft.Log.{Entry, Bincode, is_contiguous, last_or, increment, skip_present, eq_command}

-- From an entry on, indexes do not fall below it nor exceed the last one.
abbrev pub Between : ℕ → ℕ → List Entry → Type 0
Between first last = All (λ e. (first ≤ e.index) × (e.index ≤ last))

abbrev pub Rising : ℕ → List Entry → Type 0
Rising last [] = Unit
Rising last (e ∷ es) = Between e.index last (e ∷ es) × Rising last es

abbrev pub Fits : List Entry → Type 0
Fits = All (λ e. e.index + 1 < u64_mod)

Between-lower : (a b last : ℕ) (es : List Entry) → a ≤ b → Between b last es → Between a last es
Between-lower a b last [] h k = tt
Between-lower a b last (e ∷ es) h k =
    ((omega (arith, h, k.0.0), k.0.1), Between-lower a b last es h k.1)

is_contiguous-cons :
    (e f : Entry) (es : List Entry)
    → is_contiguous (e ∷ f ∷ es) ≡ true
    → (increment e.index ≡ f.index) × (is_contiguous (f ∷ es) ≡ true)
unfolding is_contiguous
is_contiguous-cons e f es h = elim (Bool-cases (increment e.index == f.index)) [
  | inl same ↦ ((==_iff (increment e.index) f.index).0 same, rw same at h)
  | inr other ↦ absurd (ground (arith, h, other))
]

-- Contiguous indexes rise to the last one, when none of them wraps around.
pub is_contiguous-Rising :
    (e : Entry) (es : List Entry)
    → is_contiguous (e ∷ es) ≡ true
    → Fits (e ∷ es)
    → Rising (last_or e es).index (e ∷ es)
is_contiguous-Rising e [] h fits = (((omega arith, omega arith), tt), tt)
is_contiguous-Rising e (f ∷ es) h fits =
    let (next, rest) = is_contiguous-cons e f es h in
    let rising = is_contiguous-Rising f es rest fits.1 in
    let below : e.index ≤ f.index = omega (arith, next, fits.0) in
    let last : e.index ≤ (last_or f es).index = omega (arith, below, rising.0.0.1) in
    (
      (
        (omega arith, last),
        Between-lower e.index f.index (last_or f es).index (f ∷ es) below rising.0,
      ),
      rising,
    )

Fits-rest : (e : Entry) (es : List Entry) → Fits (e ∷ es) → Fits es
Fits-rest e es h = h.1

module _ (bincode : Bincode) where
  -- What holds of the entries and, when it does of a list, of its rest, holds of what is written.
  pub skip_present-keeps :
      (P : List Entry → Type 0)
      → ((e : Entry) (es : List Entry) → P (e ∷ es) → P es)
      → (scan : List (Bytes × Bytes)) (es rest : List Entry) → P es
      → skip_present bincode scan es ≡ ok rest
      → P rest
  unfolding skip_present
  skip_present-keeps P tail [] es rest p h = subst P (ok_injective h) p
  skip_present-keeps P tail ((k, v) ∷ scan) [] rest p h =
      let (_, _, q) = >>=-eq-ok (bincode.entries.decode v) _ h in panic-ne q
  skip_present-keeps P tail ((k, v) ∷ scan) (e ∷ es) rest p h =
      let (present, _, q) = >>=-eq-ok (bincode.entries.decode v) _ h in
      elim (Bool-cases (present.index == e.index)) [
        | inr other ↦ panic-ne (rw other at q)
        | inl same ↦ elim (Bool-cases (present.term == e.term)) [
          | inr other ↦ subst P (ok_injective (rw (same, other) at q)) p
          | inl agree ↦ elim (Bool-cases (eq_command present.command e.command)) [
            | inr other ↦ panic-ne (rw (same, agree, other) at q)
            | inl equal ↦
                skip_present-keeps P tail scan es rest (tail e es p) (rw (same, agree, equal) at q)
          ]
        ]
      ]
