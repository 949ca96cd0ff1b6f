-- ===== src/Sql/Types/Bounds.antt =====
-- src/sql/types: the integers of values stay within 64 bits.
use toydb.Prelude.{
  ℕ, zero, suc, ◌+◌, ◌*◌, ◌/◌, ◌%◌, ◌≤◌, ◌<◌, ◌≡◌, refl, sym, ap, ◌∙◌, subst, Bool, true, false,
  not, ◌&&◌, Option, some, none, ltb, ◌==◌, if◌then◌else◌, inl, inr, Bool-cases, arith,
}
use native.Mathlib.Nat.{div-le_self, mod-le, div-le_of_le-mul}
use toydb.Prelude.Int.{
  ℤ, pos, negsuc, negate_ℕ, magnitude, signed, ◌+ℤ◌, ◌-ℤ◌, ◌*ℤ◌, pow, quot, rem, eqℤ, fits_i64,
  i64_min, i64_bound, wrap_i64,
}
use toydb.Error.{Result, ok, err, panic, invalid_input, ok_injective, panic-ne}
use toydb.Sql.Types.Value.{
  Floats, Value, null, boolean, integer, float, string, checked, checked_add_i64, checked_sub_i64,
  checked_mul_i64, arithmetic, or_overflow, divide, power, checked_add, checked_sub, checked_mul,
  checked_div, checked_rem, checked_pow,
}
use toydb.Sql.Types.Operators.{and_values, or_values, compare_values}
use toydb.Encoding.Bytes.{Bytes}

-- A quotient is no longer than its dividend, and shorter unless the divisor is one.
quotient-lt : (a b : ℕ) → a ≤ i64_bound → 1 ≤ b → (b ≡ 1 → a < i64_bound) → a / b < i64_bound
quotient-lt a b h k l = elim (Bool-cases (b == 1)) [
  | inl e ↦ omega (arith, div-le_self a b, l (ground (arith, e)))
  | inr e ↦
      let two : 2 ≤ b = ground (arith, e, k) in
      let half : a ≤ b * 4611686018427387904 = omega (arith, h, two) in
      omega (arith, div-le_of_le-mul b half)
]

negate_ℕ-fits : (n : ℕ) → n ≤ i64_bound → fits_i64 (negate_ℕ n) ≡ true
unfolding fits_i64
negate_ℕ-fits zero h = refl
negate_ℕ-fits (suc n) h = ground (arith, h)

-- The least quotient that does not fit is excluded.
quot-fits :
    (a b : ℤ)
    → fits_i64 a ≡ true
    → eqℤ b (pos 0) ≡ false
    → (eqℤ a i64_min && eqℤ b (negsuc 0)) ≡ false
    → fits_i64 (quot a b) ≡ true
unfolding quot signed magnitude fits_i64 eqℤ
quot-fits (pos a) (pos b) h k l = ground (arith, h, div-le_self a b)
quot-fits (pos a) (negsuc b) h k l =
    negate_ℕ-fits (a / (b + 1)) (ground (arith, h, div-le_self a (b + 1)))
quot-fits (negsuc a) (pos b) h k l =
    negate_ℕ-fits ((a + 1) / b) (ground (arith, h, div-le_self (a + 1) b))
quot-fits (negsuc a) (negsuc b) h k l =
    let lt : (a + 1) / (b + 1) < i64_bound =
      quotient-lt (a + 1) (b + 1) (ground (arith, h)) (omega arith)
        (λ one. ground (arith, h, l, one)) in
    ground (arith, lt)

rem-fits : (a b : ℤ) → fits_i64 a ≡ true → fits_i64 (rem a b) ≡ true
unfolding rem signed magnitude fits_i64
rem-fits (pos a) b h = ground (arith, h, mod-le a (magnitude b))
rem-fits (negsuc a) b h =
    negate_ℕ-fits ((a + 1) % magnitude b) (ground (arith, h, mod-le (a + 1) (magnitude b)))

pub wrap_i64-fits : (a : ℤ) → fits_i64 (wrap_i64 a) ≡ true
unfolding wrap_i64 fits_i64
wrap_i64-fits (pos n) = elim (Bool-cases (ltb n i64_bound)) [
  | inl e ↦ rw e e
  | inr e ↦ rw e (ground (arith, e))
]
wrap_i64-fits (negsuc n) = elim (Bool-cases (ltb n i64_bound)) [
  | inl e ↦ rw e e
  | inr e ↦ rw e (ground (arith, e))
]

module _ (floats : Floats) where
  open floats use {F64}

  abbrev V : Type 0
  V = Value floats

  unfoldable pub value_fits : Value floats → Bool
  value_fits (integer i) = fits_i64 i
  value_fits _ = true

  abbrev pub FitsOk : Result V → Type 0
  FitsOk r = (v : V) → r ≡ ok v → value_fits v ≡ true

  FitsOk-if :
      (b : Bool) (r s : Result V)
      → (b ≡ true → FitsOk r)
      → (b ≡ false → FitsOk s)
      → FitsOk (if b then r else s)
  FitsOk-if true r s h k = h refl
  FitsOk-if false r s h k = k refl

  fits-FitsOk : (v : V) → value_fits v ≡ true → FitsOk (ok v)
  fits-FitsOk v h w e = ap value_fits (sym (ok_injective e)) ∙ h

  kept : (b : Bool) (w i : ℤ) → (if not b then none else some w) ≡ some i → (b ≡ true) × (w ≡ i)
  kept true w i h = (refl, cc (h))
  kept false w i h = absurd (cc h)

  option-FitsOk :
      (o : Option ℤ) → ((i : ℤ) → o ≡ some i → fits_i64 i ≡ true) → FitsOk (or_overflow floats o)
  unfolding or_overflow value_fits
  option-FitsOk none h v e = absurd (cc e)
  option-FitsOk (some i) h v e = rw (sym (ok_injective e)) (h i refl)

  or_overflow-FitsOk : (w : ℤ) → FitsOk (or_overflow floats (checked w))
  unfolding checked
  or_overflow-FitsOk w =
      option-FitsOk (checked w)
        (λ i e. let (b, s) = kept (fits_i64 w) w i e in subst (λ j. fits_i64 j ≡ true) s b)

  abbrev FitsInts : (ℤ → ℤ → Result V) → Type 0
  FitsInts ints = (a b : ℤ) → fits_i64 a ≡ true → FitsOk (ints a b)

  arithmetic-FitsOk :
      (ints : ℤ → ℤ → Result V) (mixed : F64 → ℤ → F64) (op : F64 → F64 → F64)
      → FitsInts ints
      → (x y : V) → value_fits x ≡ true
      → FitsOk (arithmetic floats ints mixed op x y)
  unfolding arithmetic value_fits
  arithmetic-FitsOk ints mixed op h (integer a) (integer b) f v e = h a b f v e
  arithmetic-FitsOk ints mixed op h (float a) (integer b) f v e = rw (sym (ok_injective e)) refl
  arithmetic-FitsOk ints mixed op h (integer a) (float b) f v e = rw (sym (ok_injective e)) refl
  arithmetic-FitsOk ints mixed op h (float a) (float b) f v e = rw (sym (ok_injective e)) refl
  arithmetic-FitsOk ints mixed op h null (integer b) f v e = rw (sym (ok_injective e)) refl
  arithmetic-FitsOk ints mixed op h null (float b) f v e = rw (sym (ok_injective e)) refl
  arithmetic-FitsOk ints mixed op h null null f v e = rw (sym (ok_injective e)) refl
  arithmetic-FitsOk ints mixed op h (integer a) null f v e = rw (sym (ok_injective e)) refl
  arithmetic-FitsOk ints mixed op h (float a) null f v e = rw (sym (ok_injective e)) refl
  arithmetic-FitsOk ints mixed op h _ _ f v e = absurd (cc e)

  divide-FitsInts :
      (op : ℤ → ℤ → ℤ)
      → ((a b : ℤ)
          → fits_i64 a ≡ true
          → eqℤ b (pos 0) ≡ false
          → (eqℤ a i64_min && eqℤ b (negsuc 0)) ≡ false
          → fits_i64 (op a b) ≡ true)
      → FitsInts (divide floats op)
  unfolding divide value_fits
  divide-FitsInts op h a b f =
      FitsOk-if (eqℤ b (pos 0)) (err invalid_input)
        (if eqℤ a i64_min && eqℤ b (negsuc 0) then panic else ok (integer (op a b)))
        (λ z v e. absurd (cc e))
        (λ z.
          FitsOk-if (eqℤ a i64_min && eqℤ b (negsuc 0)) panic (ok (integer (op a b)))
            (λ m v e. panic-ne e) (λ m. fits-FitsOk (integer (op a b)) (h a b f z m)))

  power-FitsInts : FitsInts (power floats)
  unfolding power value_fits
  power-FitsInts a (pos n) f =
      FitsOk-if (ltb n 4294967296) (or_overflow floats (checked (pow a n))) (err invalid_input)
        (λ _. or_overflow-FitsOk (pow a n)) (λ _ v e. absurd (cc e))
  power-FitsInts a (negsuc n) f = λ v e. rw (sym (ok_injective e)) refl

  abbrev pub FitsOp : (V → V → Result V) → Type 0
  FitsOp op = (x y : V) → value_fits x ≡ true → FitsOk (op x y)

  pub checked_add-FitsOp : FitsOp (checked_add floats)
  unfolding checked_add checked_add_i64
  checked_add-FitsOp = arithmetic-FitsOk _ _ _ (λ a b f. or_overflow-FitsOk (a +ℤ b))

  pub checked_sub-FitsOp : FitsOp (checked_sub floats)
  unfolding checked_sub checked_sub_i64
  checked_sub-FitsOp = arithmetic-FitsOk _ _ _ (λ a b f. or_overflow-FitsOk (a -ℤ b))

  pub checked_mul-FitsOp : FitsOp (checked_mul floats)
  unfolding checked_mul checked_mul_i64
  checked_mul-FitsOp = arithmetic-FitsOk _ _ _ (λ a b f. or_overflow-FitsOk (a *ℤ b))

  pub checked_div-FitsOp : FitsOp (checked_div floats)
  unfolding checked_div
  checked_div-FitsOp = arithmetic-FitsOk _ _ _ (divide-FitsInts quot quot-fits)

  pub checked_rem-FitsOp : FitsOp (checked_rem floats)
  unfolding checked_rem
  checked_rem-FitsOp = arithmetic-FitsOk _ _ _ (divide-FitsInts rem (λ a b f z m. rem-fits a b f))

  pub checked_pow-FitsOp : FitsOp (checked_pow floats)
  unfolding checked_pow
  checked_pow-FitsOp = arithmetic-FitsOk _ _ _ power-FitsInts

  -- An operation that gives no integer.
  abbrev pub NoInts : (V → V → Result V) → Type 0
  NoInts op = (x y v : V) → op x y ≡ ok v → value_fits v ≡ true

  pub and_values-NoInts : NoInts (and_values floats)
  unfolding and_values value_fits
  and_values-NoInts (boolean true) null v e = rw (sym (ok_injective e)) refl
  and_values-NoInts (boolean false) null v e = rw (sym (ok_injective e)) refl
  and_values-NoInts null (boolean true) v e = rw (sym (ok_injective e)) refl
  and_values-NoInts null (boolean false) v e = rw (sym (ok_injective e)) refl
  and_values-NoInts (boolean a) (boolean b) v e = rw (sym (ok_injective e)) refl
  and_values-NoInts null null v e = rw (sym (ok_injective e)) refl
  and_values-NoInts _ _ v e = absurd (cc e)

  pub or_values-NoInts : NoInts (or_values floats)
  unfolding or_values value_fits
  or_values-NoInts (boolean true) null v e = rw (sym (ok_injective e)) refl
  or_values-NoInts (boolean false) null v e = rw (sym (ok_injective e)) refl
  or_values-NoInts null (boolean true) v e = rw (sym (ok_injective e)) refl
  or_values-NoInts null (boolean false) v e = rw (sym (ok_injective e)) refl
  or_values-NoInts (boolean a) (boolean b) v e = rw (sym (ok_injective e)) refl
  or_values-NoInts null null v e = rw (sym (ok_injective e)) refl
  or_values-NoInts _ _ v e = absurd (cc e)

  pub compare_values-NoInts :
      (bools : Bool → Bool → Bool) (ints : ℤ → ℤ → Bool) (reals : F64 → F64 → Bool)
      (strings : Bytes → Bytes → Bool)
      → NoInts (compare_values floats bools ints reals strings)
  unfolding compare_values value_fits
  compare_values-NoInts bools ints reals strings (boolean a) (boolean b) v e =
      rw (sym (ok_injective e)) refl
  compare_values-NoInts bools ints reals strings (integer a) (integer b) v e =
      rw (sym (ok_injective e)) refl
  compare_values-NoInts bools ints reals strings (integer a) (float b) v e =
      rw (sym (ok_injective e)) refl
  compare_values-NoInts bools ints reals strings (float a) (integer b) v e =
      rw (sym (ok_injective e)) refl
  compare_values-NoInts bools ints reals strings (float a) (float b) v e =
      rw (sym (ok_injective e)) refl
  compare_values-NoInts bools ints reals strings (string a) (string b) v e =
      rw (sym (ok_injective e)) refl
  compare_values-NoInts bools ints reals strings null null v e = rw (sym (ok_injective e)) refl
  compare_values-NoInts bools ints reals strings null _ v e = rw (sym (ok_injective e)) refl
  compare_values-NoInts bools ints reals strings _ null v e = rw (sym (ok_injective e)) refl
  compare_values-NoInts bools ints reals strings _ _ v e = absurd (cc e)
