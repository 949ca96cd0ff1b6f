-- ===== src/Encoding/Codec.antt =====
-- src/encoding/bincode.rs and the `Value` trait of src/encoding/mod.rs. The bincode crate is not
-- part of the repository: an encoding of the values of a type is a parameter, with the law that
-- what was encoded decodes to the same value.
use toydb.Prelude.{◌≡◌}
use toydb.Error.{Result, ok}
use toydb.Encoding.Bytes.{Bytes}

pub record Codec (A : Type 0) (Fits : A → Type 0) : Type 0 where
  pub encode : A → Bytes
  pub decode : Bytes → Result A
  pub decode-encode : (a : A) → Fits a → decode (encode a) ≡ ok a
