-- ===== src/Document.antt =====
-- crates/document/src: documents, their secondary indexes, schema validation and collections.
pub mod Record
pub mod Validate
pub mod Encoding
pub mod Index
pub mod Serde
pub mod Collection
