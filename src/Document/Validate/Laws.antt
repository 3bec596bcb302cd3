-- ===== src/Document/Validate/Laws.antt =====
-- What validation accepts (crates/document/src/validate.rs).
use dllb.Common.{
  List, [], ◌∷◌, Bytes, true, not, ◌||◌, Option, none, some, length, any, beq, ◌≡◌, refl, arith,
  ◌⊎◌, inl, inr, ◌↔◌, All, Option-cases,
}
use dllb.Common.Map.{Map, lookup, contains_key}
use dllb.Core.{
  Value, FieldType, SchemaMode, schemaless, schemafull, FieldDefinition, TableDefinition, ok, ◌>>◌,
  >>-iff,
}
use dllb.Document.Record.{Document}
use dllb.Document.Validate.{
  validate_field, check_required, check_known, check_type, check_types, validate_fields,
  validate_document,
}

-- the field type of a value; `None` has none
abbrev pub type_of : Value → Option FieldType
type_of Value.none = none
type_of (Value.bool _) = some FieldType.bool
type_of (Value.int _) = some FieldType.int
type_of (Value.float _) = some FieldType.float
type_of (Value.string _) = some FieldType.string
type_of (Value.bytes _) = some FieldType.bytes
type_of (Value.array _) = some FieldType.array
type_of (Value.object _) = some FieldType.object
type_of (Value.record_id _) = some FieldType.record_id
type_of (Value.vector v) = some (FieldType.vector (length v))

abbrev pub Fits : FieldType → Option FieldType → Type 0
Fits t none = Unit
Fits t (some u) = u ≡ t

validate_field_iff :
    (name : Bytes) (v : Value) (t : FieldType)
    → (validate_field name v t ≡ ok tt) ↔ Fits t (type_of v)
unfolding validate_field
validate_field_iff name Value.none t = (λ _. tt, λ _. refl)
validate_field_iff name (Value.vector v) (FieldType.vector dim) = ground arith
validate_field_iff name (Value.bool _) t = ground arith
validate_field_iff name (Value.int _) t = ground arith
validate_field_iff name (Value.float _) t = ground arith
validate_field_iff name (Value.string _) t = ground arith
validate_field_iff name (Value.bytes _) t = ground arith
validate_field_iff name (Value.array _) t = ground arith
validate_field_iff name (Value.object _) t = ground arith
validate_field_iff name (Value.record_id _) t = ground arith
validate_field_iff name (Value.vector v) t = ground arith

abbrev pub FitsIfThere : FieldType → Option Value → Type 0
FitsIfThere t none = Unit
FitsIfThere t (some v) = Fits t (type_of v)

-- A document conforms if every required field is there, every field is declared, and every declared
-- field that is there and is not `None` has its type.
pub record Conforms (fs : List FieldDefinition) (fields : Map Value) : Type 0 where
  pub required : All (λ f. (not f.required || contains_key f.name fields) ≡ true) fs
  pub declared : All (λ (e : Bytes × Value). any (λ f. beq f.name e.0) fs ≡ true) fields
  pub typed : All (λ f. FitsIfThere f.field_type (lookup f.name fields)) fs

check_required_iff :
    (fields : Map Value) (fs : List FieldDefinition)
    → (check_required fields fs ≡ ok tt)
      ↔ All (λ f. (not f.required || contains_key f.name fields) ≡ true) fs
unfolding check_required
check_required_iff fields [] = (λ _. tt, λ _. refl)
check_required_iff fields (f ∷ fs) = ground (arith, check_required_iff fields fs)

check_known_iff :
    (fs : List FieldDefinition) (fields : Map Value)
    → (check_known fs fields ≡ ok tt)
      ↔ All (λ (e : Bytes × Value). any (λ f. beq f.name e.0) fs ≡ true) fields
unfolding check_known
check_known_iff fs [] = (λ _. tt, λ _. refl)
check_known_iff fs ((name, v) ∷ fields) = ground (arith, check_known_iff fs fields)

check_type_iff :
    (fields : Map Value) (f : FieldDefinition)
    → (check_type fields f ≡ ok tt) ↔ (FitsIfThere f.field_type (lookup f.name fields))
unfolding check_type
check_type_iff fields f = elim (Option-cases (lookup f.name fields)) [
  | inl e ↦ (λ _. rw e tt, λ _. rw (e, check_type))
  | inr (v, e) ↦
      let fits = validate_field_iff f.name v f.field_type in
      (λ h. rw e (fits.0 (rw (e, check_type) at h)), λ h. rw (e, check_type) (fits.1 (rw e at h)))
]

check_types_iff :
    (fields : Map Value) (fs : List FieldDefinition)
    → (check_types fields fs ≡ ok tt)
      ↔ All (λ f. FitsIfThere f.field_type (lookup f.name fields)) fs
unfolding check_types
check_types_iff fields [] = (λ _. tt, λ _. refl)
check_types_iff fields (f ∷ fs) =
    let both = >>-iff (check_type fields f) (check_types fields fs) in
    let first = check_type_iff fields f in
    let others = check_types_iff fields fs in
    (λ h. let (a, b) = both.0 h in (first.0 a, others.0 b), λ h. both.1 (first.1 h.0, others.1 h.1))

validate_fields_iff :
    (doc : Document) (fs : List FieldDefinition)
    → (validate_fields doc fs ≡ ok tt) ↔ Conforms fs doc.fields
unfolding validate_fields
validate_fields_iff doc fs =
    let required = check_required_iff doc.fields fs in
    let known = check_known_iff fs doc.fields in
    let typed = check_types_iff doc.fields fs in
    let first =
      >>-iff (check_required doc.fields fs)
        (check_known fs doc.fields >> check_types doc.fields fs) in
    let second = >>-iff (check_known fs doc.fields) (check_types doc.fields fs) in
    (
      λ h.
          let (a, b) = first.0 h in
          let (c, d) = second.0 b in
          record { required = required.0 a; declared = known.0 c; typed = typed.0 d },
      λ c. first.1 (required.1 c.required, second.1 (known.1 c.declared, typed.1 c.typed)),
    )

-- Validation accepts a document exactly if the table is schemaless or the document conforms to
-- the declared fields.
pub validate_document_iff :
    (doc : Document) (table : TableDefinition)
    → (validate_document doc table ≡ ok tt)
      ↔ ((table.schema_mode ≡ schemaless) ⊎ Conforms table.fields doc.fields)
unfolding validate_document
validate_document_iff doc table = by_mode table.schema_mode refl
  where
    by_mode :
        (mode : SchemaMode)
        → table.schema_mode ≡ mode
        → (validate_document doc table ≡ ok tt)
          ↔ ((table.schema_mode ≡ schemaless) ⊎ Conforms table.fields doc.fields)
    by_mode schemaless e = (λ _. inl e, λ _. rw (e, validate_document))
    by_mode schemafull e = (
      λ h. inr ((validate_fields_iff doc table.fields).0 (rw (e, validate_document) at h)),
      λ h.
          rw (e, validate_document)
            (elim h [
              | inl f ↦ absurd (ground arith)
              | inr c ↦ (validate_fields_iff doc table.fields).1 c
            ]),
    )
