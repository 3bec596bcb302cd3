-- ===== src/Document/Serde.antt =====
-- crates/document/src/serde.rs over `rmp_serde`, which the repository does not hold: the id is not
-- part of the bytes.
use dllb.Common.{Bytes, ◌≡◌, ◌≢◌, []}
use dllb.Common.Map.{Map}
use dllb.Core.{Value, RecordId, Result, ok, ◌>>=◌, Attempt, done, or_serialization}
use dllb.Document.Record.{Document}

pub record FieldsCodec : Type 0 where
  pub to_vec : Map Value → Attempt Bytes
  pub from_slice : Bytes → Attempt (Map Value)

-- What was written is read back, and a map is at least one byte.
pub record IsCodec (codec : FieldsCodec) : Type 0 where
  pub from_slice-to_vec :
      (fields : Map Value) (bytes : Bytes)
      → codec.to_vec fields ≡ done bytes
      → codec.from_slice bytes ≡ done fields
  pub to_vec-ne : (fields : Map Value) → codec.to_vec fields ≢ done []

module _ (codec : FieldsCodec) where
  unfoldable pub serialize : Document → Result Bytes
  serialize doc = or_serialization (codec.to_vec doc.fields)

  unfoldable pub deserialize : RecordId → Bytes → Result Document
  deserialize id bytes = do
    fields ← or_serialization (codec.from_slice bytes)
    ok (record { id = id; fields = fields })
