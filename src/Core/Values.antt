-- ===== src/Core/Values.antt =====
-- crates/core/src/value.rs, and the struct of record_id.rs. A float is its bit pattern, as
-- `to_bits` gives it. `Value` and the lists and maps that it holds are one block of types.
use dllb.Common.{ℕ, List, Bool, true, false, Option, some, Bytes}
use dllb.Common.Int.{ℤ}

pub record RecordId : Type 0 where
  pub table : Bytes
  pub id : Bytes

mutual
  pub data Value : Type 0 where
    none : Value
    bool : Bool → Value
    int : ℤ → Value
    float : ℕ → Value
    string : Bytes → Value
    bytes : Bytes → Value
    array : Values → Value
    object : Fields → Value
    record_id : RecordId → Value
    vector : List ℕ → Value

  pub data Values : Type 0 where
    nil : Values
    cons : Value → Values → Values

  pub data Fields : Type 0 where
    end : Fields
    field : Bytes → Value → Fields → Fields

unfoldable pub is_none : Value → Bool
is_none Value.none = true
is_none _ = false

unfoldable pub as_vector : Value → Option (List ℕ)
as_vector (vector v) = some v
as_vector _ = Option.none
