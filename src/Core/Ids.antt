-- ===== src/Core/Ids.antt =====
-- crates/core/src/record_id.rs: `table:id`
use dllb.Common.{◌∷◌, ◌++◌, Bytes, none, some, ◌≡◌, arith, false, contains}
use dllb.Common.Split.{split_once, split_once-append}
use dllb.Core.Values.{RecordId}
use dllb.Core.Errors.{Result, ok, err, other, invalid_record_id}

-- `RecordId::new`
abbrev pub record_id_of : Bytes → Bytes → RecordId
record_id_of table id = record { table = table; id = id }

-- `Display::fmt`
unfoldable pub to_string : RecordId → Bytes
to_string r = r.table ++ b':' ∷ r.id

unfoldable pub from_str : Bytes → Result RecordId
unfolding split_once
from_str s = elim (split_once b':' s) [
  | none ↦ err (other (invalid_record_id s))
  | some (table, id) ↦ ok (record { table = table; id = id })
]

-- A record id whose table has no colon is read back from its text.
pub from_str-to_string :
    (r : RecordId) → contains r.table b':' ≡ false → from_str (to_string r) ≡ ok r
unfolding from_str to_string
from_str-to_string r h = ground (arith, split_once-append b':' r.table r.id)
