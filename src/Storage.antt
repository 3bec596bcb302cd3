-- ===== src/Storage.antt =====
-- crates/storage/src: the key encoding, the key-value interface and its redb implementation.
pub mod Key
pub mod Kv
pub mod Redb
pub mod Backend
pub mod Actor
