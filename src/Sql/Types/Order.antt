-- ===== src/Sql/Types/Order.antt =====
-- src/sql/types/value.rs: the order of values, and of the lists of values that are keys of a map.
use Prim.Native.Nat.{Ordering}
use toydb.Prelude.{Bool, true, false, List, [], ◌∷◌, if◌then◌else◌}
use toydb.Prelude.Int.{ltℤ, eqℤ}
use toydb.Encoding.Bytes.{lex_lt, eq_bytes}
use toydb.Sql.Types.Value.{Floats, Value, null, boolean, integer, float, string}

abbrev pub is_gt : Ordering → Bool
is_gt Ordering.gt = true
is_gt _ = false

abbrev pub is_lt : Ordering → Bool
is_lt Ordering.lt = true
is_lt _ = false

abbrev pub ordering : Bool → Bool → Ordering
ordering less same = if less then Ordering.lt else if same then Ordering.eq else Ordering.gt

abbrev pub cmp_bool : Bool → Bool → Ordering
cmp_bool false true = Ordering.lt
cmp_bool true false = Ordering.gt
cmp_bool _ _ = Ordering.eq

module _ (floats : Floats) where
  open floats use {of_i64, total_cmp}

  -- `Ord::cmp`
  unfoldable pub cmp : Value floats → Value floats → Ordering
  cmp null null = Ordering.eq
  cmp (boolean a) (boolean b) = cmp_bool a b
  cmp (integer a) (integer b) = ordering (ltℤ a b) (eqℤ a b)
  cmp (integer a) (float b) = total_cmp (of_i64 a) b
  cmp (float a) (integer b) = total_cmp a (of_i64 b)
  cmp (float a) (float b) = total_cmp a b
  cmp (string a) (string b) = ordering (lex_lt a b) (eq_bytes a b)
  cmp null _ = Ordering.lt
  cmp _ null = Ordering.gt
  cmp (boolean _) _ = Ordering.lt
  cmp _ (boolean _) = Ordering.gt
  cmp (float _) _ = Ordering.lt
  cmp _ (float _) = Ordering.gt
  cmp (integer _) _ = Ordering.lt
  cmp _ (integer _) = Ordering.gt

  abbrev then_by : Ordering → Ordering → Ordering
  then_by Ordering.lt later = Ordering.lt
  then_by Ordering.eq later = later
  then_by Ordering.gt later = Ordering.gt

  -- The order of `Vec<Value>`.
  unfoldable pub cmp_all : List (Value floats) → List (Value floats) → Ordering
  cmp_all [] [] = Ordering.eq
  cmp_all [] (w ∷ ws) = Ordering.lt
  cmp_all (v ∷ vs) [] = Ordering.gt
  cmp_all (v ∷ vs) (w ∷ ws) = then_by (cmp v w) (cmp_all vs ws)
