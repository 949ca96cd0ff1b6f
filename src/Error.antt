-- ===== src/Error.antt =====
-- src/error.rs: the errors that operations return, and the outcome of code that may fail or panic.
use toydb.Prelude.{◌≡◌, refl, Option, none, some}

-- The messages of `InvalidData`, `InvalidInput` and `IO` are not modelled.
pub data Error : Type 0 where
  abort invalid_data invalid_input io read_only serialization : Error

-- `panic` is a failed assertion or an unreachable branch; the process stops.
pub data Result (T : Type 0) : Type 0 where
  panic : Result T
  err : (error : Error) → Result T
  ok : (value : T) → Result T

-- An `unwrap`, or an index into a slice.
abbrev pub or_panic : {A : Type 0} → Option A → Result A
or_panic none = panic
or_panic (some a) = ok a

-- The `?` operator.
module _ {T U : Type 0} where
  infixl 5 ◌>>=◌
  abbrev pub ◌>>=◌ : Result T → (T → Result U) → Result U
  panic >>= next = panic
  err error >>= next = err error
  ok value >>= next = next value

  -- A result of the whole comes from one of the first part.
  pub >>=-eq-ok :
      (first : Result T) (next : T → Result U) {u : U}
      → (first >>= next) ≡ ok u
      → (t : T) × (first ≡ ok t) × (next t ≡ ok u)
  >>=-eq-ok panic next e = cc
  >>=-eq-ok (err error) next e = cc
  >>=-eq-ok (ok t) next e = (t, refl, e)

pub ok_injective : {T : Type 0} {t u : T} → ok t ≡ ok u → t ≡ u
ok_injective e = cc (e)

pub panic-ne {κ} : {T : Type 0} {B : Type κ} {t : T} → panic ≡ ok t → B
panic-ne h = absurd (cc h)

pub >>=-ok : {T : Type 0} (r : Result T) → (r >>= λ t. ok t) ≡ r
>>=-ok panic = refl
>>=-ok (err error) = refl
>>=-ok (ok t) = refl
