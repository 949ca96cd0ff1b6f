-- ===== src/Sql/Types/Value.antt =====
-- src/sql/types/value.rs: values, their arithmetic and their order. The 64-bit floating-point
-- numbers of the hardware are a parameter. A string is its bytes in UTF-8.
use toydb.Prelude.{Bool, true, false, not, ◌&&◌, ◌||◌, Option, none, some, ltb, if◌then◌else◌}
use Prim.Native.Nat.{Ordering}
use toydb.Prelude.Int.{
  ℤ, pos, negsuc, ◌+ℤ◌, ◌-ℤ◌, ◌*ℤ◌, quot, rem, pow, eqℤ, fits_i64, i64_min, wrap_i32,
}
use toydb.Error.{Result, ok, err, panic, invalid_input}
use toydb.Encoding.Bytes.{Bytes, eq_bytes}

pub data DataType : Type 0 where
  boolean integer float string : DataType

-- `f64`
pub record Floats : Type 1 where
  pub F64 : Type 0
  pub of_i64 : ℤ → F64
  pub add : F64 → F64 → F64
  pub sub : F64 → F64 → F64
  pub mul : F64 → F64 → F64
  pub div : F64 → F64 → F64
  pub rem : F64 → F64 → F64
  pub powf : F64 → F64 → F64
  pub powi : F64 → ℤ → F64
  pub sqrt : F64 → F64
  pub neg : F64 → F64
  pub eq : F64 → F64 → Bool
  pub lt : F64 → F64 → Bool
  pub total_cmp : F64 → F64 → Ordering
  pub is_nan : F64 → Bool

-- `checked_add_i64`, `checked_sub_i64`, `checked_mul_i64`: the exact result, if it fits.
unfoldable pub checked : ℤ → Option ℤ
checked wide = if not (fits_i64 wide) then none else some wide

unfoldable pub checked_add_i64 : ℤ → ℤ → Option ℤ
checked_add_i64 a b = checked (a +ℤ b)

unfoldable pub checked_sub_i64 : ℤ → ℤ → Option ℤ
checked_sub_i64 a b = checked (a -ℤ b)

unfoldable pub checked_mul_i64 : ℤ → ℤ → Option ℤ
checked_mul_i64 a b = checked (a *ℤ b)

module _ (floats : Floats) where
  open floats use {F64, of_i64}

  pub data Value : Type 0 where
    null : Value
    boolean : Bool → Value
    integer : ℤ → Value
    float : F64 → Value
    string : Bytes → Value

  unfoldable pub datatype : Value → Option DataType
  datatype null = none
  datatype (boolean _) = some DataType.boolean
  datatype (integer _) = some DataType.integer
  datatype (float _) = some DataType.float
  datatype (string _) = some DataType.string

  unfoldable pub is_undefined : Value → Bool
  is_undefined null = true
  is_undefined (float f) = floats.is_nan f
  is_undefined (boolean _) = false
  is_undefined (integer _) = false
  is_undefined (string _) = false

  abbrev eq_bool : Bool → Bool → Bool
  eq_bool true b = b
  eq_bool false b = not b

  -- `PartialEq`
  unfoldable pub eq_value : Value → Value → Bool
  eq_value (boolean a) (boolean b) = eq_bool a b
  eq_value (integer a) (integer b) = eqℤ a b
  eq_value (integer a) (float b) = floats.eq (of_i64 a) b
  eq_value (float a) (integer b) = floats.eq a (of_i64 b)
  eq_value (float a) (float b) = floats.eq a b || floats.is_nan a && floats.is_nan b
  eq_value (string a) (string b) = eq_bytes a b
  eq_value null null = true
  eq_value _ _ = false

  -- What the operations on numbers share: two integers, mixed numbers and floats, and NULLs.
  unfoldable pub arithmetic :
      (ℤ → ℤ → Result Value) → (F64 → ℤ → F64) → (F64 → F64 → F64) → Value → Value → Result Value
  arithmetic ints mixed op (integer a) (integer b) = ints a b
  arithmetic ints mixed op (integer a) (float b) = ok (float (op (of_i64 a) b))
  arithmetic ints mixed op (float a) (integer b) = ok (float (mixed a b))
  arithmetic ints mixed op (float a) (float b) = ok (float (op a b))
  arithmetic ints mixed op null (integer _) = ok null
  arithmetic ints mixed op null (float _) = ok null
  arithmetic ints mixed op null null = ok null
  arithmetic ints mixed op (integer _) null = ok null
  arithmetic ints mixed op (float _) null = ok null
  arithmetic ints mixed op _ _ = err invalid_input

  -- The float of an integer on the right.
  abbrev on_floats : (F64 → F64 → F64) → F64 → ℤ → F64
  on_floats op a b = op a (of_i64 b)

  unfoldable pub or_overflow : Option ℤ → Result Value
  or_overflow (some i) = ok (integer i)
  or_overflow none = err invalid_input

  unfoldable pub checked_add : Value → Value → Result Value
  checked_add =
      arithmetic (λ a b. or_overflow (checked_add_i64 a b)) (on_floats floats.add) floats.add

  unfoldable pub checked_sub : Value → Value → Result Value
  checked_sub =
      arithmetic (λ a b. or_overflow (checked_sub_i64 a b)) (on_floats floats.sub) floats.sub

  unfoldable pub checked_mul : Value → Value → Result Value
  checked_mul =
      arithmetic (λ a b. or_overflow (checked_mul_i64 a b)) (on_floats floats.mul) floats.mul

  -- The division of an `i64`: by -1 the least one has no quotient, and the process panics.
  unfoldable pub divide : (ℤ → ℤ → ℤ) → ℤ → ℤ → Result Value
  divide op a b =
      if eqℤ b (pos 0)
      then err invalid_input
      else if eqℤ a i64_min && eqℤ b (negsuc 0)
      then panic
      else ok (integer (op a b))

  unfoldable pub checked_div : Value → Value → Result Value
  checked_div = arithmetic (divide quot) (on_floats floats.div) floats.div

  unfoldable pub checked_rem : Value → Value → Result Value
  checked_rem = arithmetic (divide rem) (on_floats floats.rem) floats.rem

  -- A power with an exponent of 32 bits, if it fits; with a negative exponent it is a float.
  unfoldable pub power : ℤ → ℤ → Result Value
  power a (pos n) = if ltb n 4294967296 then or_overflow (checked (pow a n)) else err invalid_input
  power a (negsuc n) = ok (float (floats.powf (of_i64 a) (of_i64 (negsuc n))))

  unfoldable pub checked_pow : Value → Value → Result Value
  checked_pow = arithmetic power (λ a b. floats.powi a (wrap_i32 b)) floats.powf
