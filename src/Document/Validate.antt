-- ===== src/Document/Validate.antt =====
-- crates/document/src/validate.rs
use dllb.Common.{
  ℕ, List, [], ◌∷◌, Bytes, Bool, true, false, not, ◌&&◌, Option, none, some, length, any, beq, ◌==◌,
  if◌then◌else◌,
}
use dllb.Common.Map.{Map, lookup, contains_key}
use dllb.Core.{
  Value, FieldType, SchemaMode, schemaless, schemafull, FieldDefinition, TableDefinition, Result,
  ok, err, ◌>>=◌, ◌>>◌, schema, dimension_mismatch, missing_required_field, unknown_field,
  field_type_expected,
}
use dllb.Document.Record.{Document}
pub mod Laws

unfoldable pub validate_field : Bytes → Value → FieldType → Result (Unit {0})
validate_field name Value.none t = ok tt
validate_field name (Value.string _) FieldType.string = ok tt
validate_field name (Value.int _) FieldType.int = ok tt
validate_field name (Value.float _) FieldType.float = ok tt
validate_field name (Value.bool _) FieldType.bool = ok tt
validate_field name (Value.bytes _) FieldType.bytes = ok tt
validate_field name (Value.array _) FieldType.array = ok tt
validate_field name (Value.object _) FieldType.object = ok tt
validate_field name (Value.record_id _) FieldType.record_id = ok tt
validate_field name (Value.vector v) (FieldType.vector dim) =
    if length v == dim then ok tt else err (dimension_mismatch dim (length v))
validate_field name value expected = err (schema (field_type_expected name expected value))

-- the three loops of `validate_document`
unfoldable pub check_required : Map Value → List FieldDefinition → Result (Unit {0})
check_required fields [] = ok tt
check_required fields (f ∷ fs) =
    let rest = check_required fields fs in
    if f.required && not (contains_key f.name fields)
    then err (schema (missing_required_field f.name))
    else rest

unfoldable pub check_known : List FieldDefinition → Map Value → Result (Unit {0})
check_known fs [] = ok tt
check_known fs ((name, _) ∷ fields) =
    let rest = check_known fs fields in
    if not (any (λ f. beq f.name name) fs) then err (schema (unknown_field name)) else rest

unfoldable pub check_type : Map Value → FieldDefinition → Result (Unit {0})
check_type fields f = elim (lookup f.name fields) [
  | none ↦ ok tt
  | some value ↦ validate_field f.name value f.field_type
]

unfoldable pub check_types : Map Value → List FieldDefinition → Result (Unit {0})
check_types fields [] = ok tt
check_types fields (f ∷ fs) = do check_type fields f; check_types fields fs

unfoldable pub validate_fields : Document → List FieldDefinition → Result (Unit {0})
validate_fields doc fs = do
  check_required doc.fields fs
  check_known fs doc.fields
  check_types doc.fields fs

unfoldable pub validate_document : Document → TableDefinition → Result (Unit {0})
validate_document doc table = elim table.schema_mode [
  | schemaless ↦ ok tt
  | schemafull ↦ validate_fields doc table.fields
]
