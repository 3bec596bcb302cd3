-- ===== src/Document/Record.antt =====
-- crates/document/src/document.rs: the fields are a `BTreeMap`.
use dllb.Common.{Bytes, [], Option}
use dllb.Common.Map.{Map, lookup, insert, remove}
use dllb.Core.{Value, RecordId}

pub record Document : Type 0 where
  pub id : RecordId
  pub fields : Map Value

-- `Document::new`
abbrev pub new_document : RecordId → Document
new_document id = record { id = id; fields = [] }

unfoldable pub with_field : Bytes → Value → Document → Document
with_field name value doc = record doc { fields = insert name value doc.fields }

unfoldable pub get_field : Document → Bytes → Option Value
get_field doc name = lookup name doc.fields

unfoldable pub set_field : Bytes → Value → Document → Document
set_field name value doc = record doc { fields = insert name value doc.fields }

unfoldable pub remove_field : Bytes → Document → Option Value × Document
remove_field name doc = (lookup name doc.fields, record doc { fields = remove name doc.fields })
