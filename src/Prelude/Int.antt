-- ===== src/Prelude/Int.antt =====
-- Integers over the native numbers, with the truncating division of Rust.
use Prim.Native.Nat.{ℕ, zero, suc, ◌+◌, ◌-◌, ◌*◌, ◌/◌, ◌%◌, ◌^◌}
use mathlib.Core.Bool.{Bool, true, false}
use toydb.Prelude.Tests.{ltb, ◌==◌, if◌then◌else◌}

-- `negsuc n` is -(n + 1).
pub data ℤ : Type 0 where
  pos : ℕ → ℤ
  negsuc : ℕ → ℤ

-- The integers of a sign and a magnitude.
abbrev pub negate_ℕ : ℕ → ℤ
negate_ℕ zero = pos 0
negate_ℕ (suc n) = negsuc n

abbrev pub minus_ℕ : ℕ → ℕ → ℤ
minus_ℕ m n = if ltb m n then negsuc (n - m - 1) else pos (m - n)

unfoldable pub magnitude : ℤ → ℕ
magnitude (pos n) = n
magnitude (negsuc n) = n + 1

unfoldable pub neg : ℤ → ℤ
neg (pos n) = negate_ℕ n
neg (negsuc n) = pos (n + 1)

infixl 65 ◌+ℤ◌ ◌-ℤ◌
infixl 70 ◌*ℤ◌
unfoldable pub ◌+ℤ◌ : ℤ → ℤ → ℤ
pos m +ℤ pos n = pos (m + n)
pos m +ℤ negsuc n = minus_ℕ m (n + 1)
negsuc m +ℤ pos n = minus_ℕ n (m + 1)
negsuc m +ℤ negsuc n = negsuc (m + n + 1)

unfoldable pub ◌-ℤ◌ : ℤ → ℤ → ℤ
unfolding ◌+ℤ◌ neg
a -ℤ b = a +ℤ neg b

-- The integer of a magnitude, negative if the signs of two factors differ.
unfoldable pub signed : ℤ → ℤ → ℕ → ℤ
signed (pos _) (pos _) n = pos n
signed (pos _) (negsuc _) n = negate_ℕ n
signed (negsuc _) (pos _) n = negate_ℕ n
signed (negsuc _) (negsuc _) n = pos n

unfoldable pub ◌*ℤ◌ : ℤ → ℤ → ℤ
unfolding signed magnitude
a *ℤ b = signed a b (magnitude a * magnitude b)

-- The quotient rounded towards zero, and the remainder with the sign of the dividend.
unfoldable pub quot : ℤ → ℤ → ℤ
unfolding signed magnitude
quot a b = signed a b (magnitude a / magnitude b)

unfoldable pub rem : ℤ → ℤ → ℤ
unfolding signed magnitude
rem a b = signed a (pos 0) (magnitude a % magnitude b)

unfoldable pub pow : ℤ → ℕ → ℤ
pow (pos a) n = pos (a ^ n)
pow (negsuc a) n = if n % 2 == 0 then pos ((a + 1) ^ n) else negate_ℕ ((a + 1) ^ n)

unfoldable pub ltℤ : ℤ → ℤ → Bool
ltℤ (pos m) (pos n) = ltb m n
ltℤ (pos m) (negsuc n) = false
ltℤ (negsuc m) (pos n) = true
ltℤ (negsuc m) (negsuc n) = ltb n m

unfoldable pub eqℤ : ℤ → ℤ → Bool
eqℤ (pos m) (pos n) = m == n
eqℤ (pos m) (negsuc n) = false
eqℤ (negsuc m) (pos n) = false
eqℤ (negsuc m) (negsuc n) = m == n

abbrev pub i64_bound : ℕ
i64_bound = 2 ^ 63

-- Whether an integer is an `i64`.
unfoldable pub fits_i64 : ℤ → Bool
fits_i64 (pos n) = ltb n i64_bound
fits_i64 (negsuc n) = ltb n i64_bound

abbrev pub i64_min : ℤ
i64_min = negsuc 9223372036854775807

-- The `i64` with the same low 64 bits as an integer of at most 65 bits.
unfoldable pub wrap_i64 : ℤ → ℤ
wrap_i64 (pos n) = if ltb n i64_bound then pos n else negsuc (2 ^ 64 - n - 1)
wrap_i64 (negsuc n) = if ltb n i64_bound then negsuc n else pos (2 ^ 64 - n - 1)

-- The lower 32 bits, as in `as i32`.
unfoldable pub wrap_i32 : ℤ → ℤ
wrap_i32 (pos n) = let m = n % 2 ^ 32 in if ltb m (2 ^ 31) then pos m else negsuc (2 ^ 32 - m - 1)
wrap_i32 (negsuc n) =
    let m = n % 2 ^ 32 in if ltb m (2 ^ 31) then negsuc m else pos (2 ^ 32 - m - 1)
