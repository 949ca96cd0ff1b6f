-- ===== src/Encoding/Bytes.antt =====
-- Byte strings and their lexicographic order, as src/encoding/keycode.rs states it.
use toydb.Prelude.{
  ℕ, ◌<◌, ◌≡◌, refl, inl, inr, ◌↔◌, Bool, true, false, not, ◌||◌, ◌&&◌, List, [], ◌∷◌, arith, ltb,
  ◌==◌, if◌then◌else◌, All, Bool-cases,
}

-- A byte is a number; where a bound matters it is a hypothesis.
abbrev pub Bytes : Type 0
Bytes = List ℕ

abbrev pub AllBytes : Bytes → Type 0
AllBytes = All (λ b. b < 256)

unfoldable pub lex_lt : Bytes → Bytes → Bool
lex_lt [] [] = false
lex_lt [] (y ∷ ys) = true
lex_lt (x ∷ xs) [] = false
lex_lt (x ∷ xs) (y ∷ ys) = if x == y then lex_lt xs ys else ltb x y

unfoldable pub eq_bytes : Bytes → Bytes → Bool
eq_bytes [] [] = true
eq_bytes [] (y ∷ ys) = false
eq_bytes (x ∷ xs) [] = false
eq_bytes (x ∷ xs) (y ∷ ys) = if x == y then eq_bytes xs ys else false

unfoldable pub lex_le : Bytes → Bytes → Bool
lex_le a b = eq_bytes a b || lex_lt a b

unfoldable pub is_prefix : Bytes → Bytes → Bool
is_prefix [] k = true
is_prefix (x ∷ p) [] = false
is_prefix (x ∷ p) (y ∷ k) = if x == y then is_prefix p k else false

pub eq_bytes_refl : (a : Bytes) → eq_bytes a a ≡ true
unfolding eq_bytes
eq_bytes_refl [] = refl
eq_bytes_refl (x ∷ a) = ground (arith, eq_bytes_refl a)

pub eq_bytes→eq : (a b : Bytes) → eq_bytes a b ≡ true → a ≡ b
unfolding eq_bytes
eq_bytes→eq [] [] h = refl
eq_bytes→eq [] (y ∷ b) h = cc
eq_bytes→eq (x ∷ a) [] h = cc
eq_bytes→eq (x ∷ a) (y ∷ b) h = ground (arith, eq_bytes→eq a b)

pub eq_bytes_iff : (a b : Bytes) → (eq_bytes a b ≡ true) ↔ (a ≡ b)
eq_bytes_iff a b = (eq_bytes→eq a b, λ e. rw e (eq_bytes_refl b))

pub lex_lt_irrefl : (a : Bytes) → lex_lt a a ≡ false
unfolding lex_lt
lex_lt_irrefl [] = refl
lex_lt_irrefl (x ∷ a) = ground (arith, lex_lt_irrefl a)

pub lex_lt-nil : (a : Bytes) → lex_lt a [] ≡ false
unfolding lex_lt
lex_lt-nil [] = refl
lex_lt-nil (x ∷ a) = refl

pub lex_lt_trans : (a b c : Bytes) → lex_lt a b ≡ true → lex_lt b c ≡ true → lex_lt a c ≡ true
unfolding lex_lt
lex_lt_trans a [] [] h k = cc
lex_lt_trans [] [] (z ∷ c) h k = refl
lex_lt_trans (x ∷ a) [] (z ∷ c) h k = cc
lex_lt_trans a (y ∷ b) [] h k = cc
lex_lt_trans [] (y ∷ b) (z ∷ c) h k = refl
lex_lt_trans (x ∷ a) (y ∷ b) (z ∷ c) h k = ground (arith, lex_lt_trans a b c)

pub lex_lt_asymm : (a b : Bytes) → lex_lt a b ≡ true → lex_lt b a ≡ false
unfolding lex_lt
lex_lt_asymm [] [] h = refl
lex_lt_asymm [] (y ∷ b) h = refl
lex_lt_asymm (x ∷ a) [] h = cc
lex_lt_asymm (x ∷ a) (y ∷ b) h = ground (arith, lex_lt_asymm a b)

-- The order is total.
pub lex_lt_connex : (a b : Bytes) → lex_lt a b ≡ false → lex_lt b a ≡ false → a ≡ b
unfolding lex_lt
lex_lt_connex [] [] h k = refl
lex_lt_connex [] (y ∷ b) h k = cc
lex_lt_connex (x ∷ a) [] h k = cc
lex_lt_connex (x ∷ a) (y ∷ b) h k = ground (arith, lex_lt_connex a b)

pub lex_le-not-lt : (a b : Bytes) → lex_le a b ≡ not (lex_lt b a)
unfolding lex_le
lex_le-not-lt a b = elim (Bool-cases (eq_bytes a b)) [
  | inl e ↦ rw (eq_bytes→eq a b e, eq_bytes_refl b, lex_lt_irrefl b)
  | inr n ↦
      rw n (ground (arith, eq_bytes_iff a b, lex_lt_connex a b, lex_lt_asymm a b, lex_lt_asymm b a))
]

-- `std::ops::Bound`
pub data Bound {ℓ} (A : Type ℓ) : Type ℓ where
  included excluded : A → Bound A
  unbounded : Bound A

abbrev pub Range : Type 0
Range = Bound Bytes × Bound Bytes

abbrev pub above : Bound Bytes → Bytes → Bool
above (included lo) k = not (lex_lt k lo)
above (excluded lo) k = lex_lt lo k
above unbounded k = true

abbrev pub below : Bound Bytes → Bytes → Bool
below (included hi) k = not (lex_lt hi k)
below (excluded hi) k = lex_lt k hi
below unbounded k = true

-- Whether a key lies between the two bounds.
unfoldable pub in_range : Range → Bytes → Bool
in_range (lo, hi) k = above lo k && below hi k

-- A range whose start lies behind its end, or that excludes the one key at both ends.
unfoldable pub is_reversed : Range → Bool
is_reversed (included lo, included hi) = lex_lt hi lo
is_reversed (included lo, excluded hi) = lex_lt hi lo
is_reversed (excluded lo, included hi) = lex_lt hi lo
is_reversed (excluded lo, excluded hi) = not (lex_lt lo hi)
is_reversed (_, _) = false
