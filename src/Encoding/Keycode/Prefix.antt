-- ===== src/Encoding/Keycode/Prefix.antt =====
-- The range of keys with a given prefix (`prefix_end`, `prefix_range`).
use toydb.Prelude.{
  ℕ, zero, suc, ◌+◌, ◌≡◌, refl, sym, ◌∙◌, Bool, true, false, not, ◌&&◌, Option, none, some,
  Option-cases, inl, inr, ◌<◌, [], ◌∷◌, ◌++◌, arith, ◌==◌, if◌then◌else◌, length, append-nil,
  append-nil,
}
use toydb.Encoding.Bytes.{
  Bytes, AllBytes, lex_lt, lex_lt-nil, is_prefix, in_range, is_reversed, lex_lt_asymm,
}
use toydb.Encoding.Keycode.{prefix_end_from, prefix_end, prefix_range}

-- The end bound of `x ∷ p` from that of `p`.
extended : ℕ → Option Bytes → Option Bytes
extended x (some e) = some (x ∷ e)
extended x none = if x == 255 then none else some ((x + 1) ∷ [])

prefix_end_from-cons :
    (x : ℕ) (p : Bytes) (i : ℕ) → prefix_end_from (x ∷ p) (suc i) ≡ extended x (prefix_end_from p i)
unfolding prefix_end_from extended
prefix_end_from-cons x p zero = refl
prefix_end_from-cons x p (suc i) = ground (arith, prefix_end_from-cons x p i)

prefix_end-cons : (x : ℕ) (p : Bytes) → prefix_end (x ∷ p) ≡ extended x (prefix_end p)
unfolding prefix_end
prefix_end-cons x p = prefix_end_from-cons x p (length p)

bounded : Option Bytes → Bytes → Bool
bounded none k = true
bounded (some e) k = lex_lt k e

grown :
    (x y : ℕ) (p k : Bytes) (o : Option Bytes)
    → x < 256
    → y < 256
    → is_prefix p k ≡ (not (lex_lt k p) && bounded o k)
    → is_prefix (x ∷ p) (y ∷ k) ≡ (not (lex_lt (y ∷ k) (x ∷ p)) && bounded (extended x o) (y ∷ k))
unfolding is_prefix bounded lex_lt extended
grown x y p k none hx hy ih = ground (arith, lex_lt-nil k)
grown x y p k (some e) hx hy ih = ground arith

is_prefix-bounded :
    (p k : Bytes)
    → AllBytes p
    → AllBytes k
    → is_prefix p k ≡ (not (lex_lt k p) && bounded (prefix_end p) k)
unfolding is_prefix bounded lex_lt
is_prefix-bounded [] [] hp hk = unfold prefix_end in refl
is_prefix-bounded [] (y ∷ k) hp hk = unfold prefix_end in refl
is_prefix-bounded (x ∷ p) [] hp hk = refl
is_prefix-bounded (x ∷ p) (y ∷ k) hp hk =
    rw (prefix_end-cons x p)
      (grown x y p k (prefix_end p) hp.0 hk.0 (is_prefix-bounded p k hp.1 hk.1))

in_range-bounded :
    (prefix k : Bytes)
    → in_range (prefix_range prefix) k ≡ (not (lex_lt k prefix) && bounded (prefix_end prefix) k)
unfolding in_range prefix_range bounded
in_range-bounded prefix k = elim (Option-cases (prefix_end prefix)) [
  | inl e ↦ rw (e, prefix_range)
  | inr (b, e) ↦ rw (e, prefix_range)
]

-- A byte string lies in the range that a prefix scan reads exactly when it starts with the prefix.
pub in_range-prefix_range :
    (prefix k : Bytes)
    → AllBytes prefix
    → AllBytes k
    → in_range (prefix_range prefix) k ≡ is_prefix prefix k
in_range-prefix_range prefix k hp hk =
    in_range-bounded prefix k ∙ sym (is_prefix-bounded prefix k hp hk)

bounded-extended :
    (x : ℕ) (o : Option Bytes) (k q : Bytes)
    → x < 255
    → bounded (extended x o) k ≡ true
    → lex_lt k ((x + 1) ∷ q) ≡ true
unfolding bounded extended lex_lt
bounded-extended x none [] q h b = refl
bounded-extended x none (y ∷ k) q h b = ground (arith, lex_lt-nil k)
bounded-extended x (some e) [] q h b = refl
bounded-extended x (some e) (y ∷ k) q h b = ground arith

-- What a prefix scan reads lies below every key that starts with a greater byte.
pub in_range-lt :
    (x : ℕ) (prefix k q : Bytes)
    → x < 255
    → in_range (prefix_range (x ∷ prefix)) k ≡ true
    → lex_lt k ((x + 1) ∷ q) ≡ true
in_range-lt x prefix k q h r =
    bounded-extended x (prefix_end prefix) k q h
      (ground (arith, in_range-bounded (x ∷ prefix) k, prefix_end-cons x prefix))

-- What a prefix scan reads does not lie below the prefix.
pub in_range-ge :
    (prefix k : Bytes) → in_range (prefix_range prefix) k ≡ true → lex_lt k prefix ≡ false
in_range-ge prefix k r = ground (arith, in_range-bounded prefix k)

lex_lt-extension : (p k : Bytes) → lex_lt (p ++ k) p ≡ false
unfolding lex_lt
lex_lt-extension [] k = lex_lt-nil k
lex_lt-extension (x ∷ p) k = ground (arith, lex_lt-extension p k)

bounded-extension : (p k : Bytes) → bounded (prefix_end p) (p ++ k) ≡ true
unfolding bounded
bounded-extension [] k = unfold prefix_end in refl
bounded-extension (x ∷ p) k =
    rw (prefix_end-cons x p) (grown_bound x (prefix_end p) (p ++ k) (bounded-extension p k))
  where
    grown_bound :
        (x : ℕ) (o : Option Bytes) (q : Bytes)
        → bounded o q ≡ true
        → bounded (extended x o) (x ∷ q) ≡ true
    grown_bound x none q h = unfold extended lex_lt in ground arith
    grown_bound x (some e) q h = unfold extended lex_lt in ground arith

-- A prefix scan reads every extension of the prefix.
pub in_range-extension : (p k : Bytes) → in_range (prefix_range p) (p ++ k) ≡ true
in_range-extension p k =
    rw (in_range-bounded p (p ++ k), lex_lt-extension p k, bounded-extension p k)

-- The bounds of a prefix scan are in order, so that the scan does not panic.
pub is_reversed-prefix_range : (p : Bytes) → is_reversed (prefix_range p) ≡ false
unfolding is_reversed prefix_range
is_reversed-prefix_range p = elim (Option-cases (prefix_end p)) [
  | inl e ↦ rw (e, prefix_range)
  | inr (b, e) ↦
      rw (e, prefix_range)
        (lex_lt_asymm p b
          (unfold bounded in rw (append-nil p, e, bounded) at (bounded-extension p [])))
]
