-- ===== src/Encoding.antt =====
-- src/encoding: the order-preserving encoding of keys, and the encoding of values.
pub mod Bytes
pub mod Keycode
pub mod Codec
