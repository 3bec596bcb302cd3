-- ===== src/Examples/Encodings.antt =====
-- The encoding of values, validation and the record ids at concrete values.
use dllb.Common.{
  ◌-◌, ◌^◌, false, List, [], ◌∷◌, ◌++◌, Bytes, true, not, ◌&&◌, ◌||◌, ◌≡◌, refl, arith, ◌↔◌, ◌⊎◌,
}
use dllb.Common.Int.{pos, negsuc, lt_int}
use dllb.Common.Order.{lex_lt}
use dllb.Common.Utf8.{from_utf8}
use dllb.Core.{Value, int, FieldDefinition, TableDefinition, schemafull, schemaless, ok}
use dllb.Document.Record.{Document}
use dllb.Document.Validate.{validate_document}
use dllb.Document.Validate.Laws.{Conforms, validate_document_iff}
use dllb.Document.Encoding.{
  encode_i64, encode_f64, encode_index_key_part, encode_composite_key_part, id_from_entry,
}
use dllb.Document.Encoding.Words.{sign_magnitude, lex_lt-encode_i64, lex_lt-encode_f64}
use dllb.Document.Encoding.Parts.{id_from_entry-composite}
use dllb.Document.Encoding.Order.{value_lt, key_part_order, tuple_lt, composite_order}

-- i64::MIN is below -1
lex_lt-encode_i64_example :
    lex_lt (encode_i64 (negsuc (2 ^ 63 - 1))) (encode_i64 (negsuc 0))
    ≡ lt_int (negsuc (2 ^ 63 - 1)) (negsuc 0)
lex_lt-encode_i64_example =
    lex_lt-encode_i64 (negsuc (2 ^ 63 - 1)) (negsuc 0) (omega arith) (omega arith)

-- the bits of -1.0 and of 1.0
lex_lt-encode_f64_example :
    lex_lt (encode_f64 0xbff0000000000000) (encode_f64 0x3ff0000000000000)
    ≡ lt_int (sign_magnitude 0xbff0000000000000) (sign_magnitude 0x3ff0000000000000)
lex_lt-encode_f64_example =
    lex_lt-encode_f64 0xbff0000000000000 0x3ff0000000000000 (omega arith) (omega arith)

key_part_order_example :
    (p : Bytes) × (q : Bytes) × (encode_index_key_part (Value.string (1 ∷ 0 ∷ [])) ≡ ok p)
    × (encode_index_key_part (Value.string (1 ∷ [])) ≡ ok q)
    × (lex_lt (p ++ 7 ∷ []) (q ++ 9 ∷ []) ≡ (
        value_lt (Value.string (1 ∷ 0 ∷ [])) (Value.string (1 ∷ []))
        || (not (value_lt (Value.string (1 ∷ [])) (Value.string (1 ∷ 0 ∷ [])))
            && lex_lt (7 ∷ []) (9 ∷ []))))
key_part_order_example =
    key_part_order (Value.string (1 ∷ 0 ∷ [])) (Value.string (1 ∷ [])) (7 ∷ []) (9 ∷ []) tt

-- a string that another one extends by a zero byte, before a bool
abbrev low_pair : List Value
low_pair = Value.string (1 ∷ []) ∷ Value.bool true ∷ []

abbrev high_pair : List Value
high_pair = Value.string (1 ∷ 0 ∷ []) ∷ Value.bool false ∷ []

composite_order_example :
    (p : Bytes) × (q : Bytes) × (encode_composite_key_part low_pair ≡ ok p)
    × (encode_composite_key_part high_pair ≡ ok q)
    × (lex_lt (p ++ 7 ∷ []) (q ++ 3 ∷ []) ≡ (
        tuple_lt low_pair high_pair
        || (not (tuple_lt high_pair low_pair) && lex_lt (7 ∷ []) (3 ∷ []))))
composite_order_example = composite_order low_pair high_pair (7 ∷ []) (3 ∷ []) (tt, (tt, tt))

low_pair_test : encode_composite_key_part low_pair ≡ ok (1 ∷ 0 ∷ 1 ∷ 1 ∷ 0 ∷ 1 ∷ [])
unfolding encode_composite_key_part
low_pair_test = refl

id_from_entry-composite_example :
    id_from_entry ((9 ∷ 9 ∷ []) ++ ((1 ∷ 0 ∷ 1 ∷ 1 ∷ 0 ∷ 1 ∷ []) ++ b'a' ∷ [])) 2 2
    ≡ from_utf8 (b'a' ∷ [])
id_from_entry-composite_example =
    id_from_entry-composite (9 ∷ 9 ∷ []) low_pair (1 ∷ 0 ∷ 1 ∷ 1 ∷ 0 ∷ 1 ∷ []) (b'a' ∷ [])
      (omega arith) low_pair_test

abbrev age : FieldDefinition
age = record { name = b'g' ∷ []; field_type = int; required = true }

abbrev users : TableDefinition
users = record { name = b'u' ∷ []; schema_mode = schemafull; fields = age ∷ [] }

abbrev aged : Document
aged = record {
  id = record { table = b'u' ∷ []; id = b'a' ∷ [] };
  fields = (b'g' ∷ [], Value.int (pos 30)) ∷ [];
}

validate_document_iff_example :
    (validate_document aged users ≡ ok tt)
    ↔ ((users.schema_mode ≡ schemaless) ⊎ Conforms users.fields aged.fields)
validate_document_iff_example = validate_document_iff aged users
