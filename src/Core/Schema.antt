-- ===== src/Core/Schema.antt =====
-- crates/core/src/schema.rs
use dllb.Common.{ℕ, List, Bool, Bytes}

pub data FieldType : Type 0 where
  string int float bool bytes array object record_id : FieldType
  vector : ℕ → FieldType

pub data SchemaMode : Type 0 where
  schemaless schemafull : SchemaMode

pub record FieldDefinition : Type 0 where
  pub name : Bytes
  pub field_type : FieldType
  pub required : Bool

pub record TableDefinition : Type 0 where
  pub name : Bytes
  pub schema_mode : SchemaMode
  pub fields : List FieldDefinition
