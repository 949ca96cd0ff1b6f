-- ===== src/Storage.antt =====
-- src/storage: the key/value engines and multi-version concurrency control.
pub mod BTreeMap
pub mod Memory
pub mod Frame
pub mod BitCask
pub mod Mvcc
