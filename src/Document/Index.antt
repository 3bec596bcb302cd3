-- ===== src/Document/Index.antt =====
-- crates/document/src/index.rs: index definitions, entries, lookups and the catalog. The encoding
-- of values is in `Encoding`.
pub mod Scan
pub mod Lookup
pub mod Exact
use dllb.Common.{
  ℕ, List, [], ◌∷◌, ◌++◌, Bytes, Bool, true, false, Option, none, some, length, if◌then◌else◌, beq,
}
use dllb.Common.Order.{lex_le}
use dllb.Common.Map.{Map, lookup, keys}
use dllb.Core.{
  Value, RecordId, is_none, Result, ok, err, ◌>>=◌, index, schema, index_has_no_fields,
  unique_violated, Attempt, or_serialization,
}
use dllb.Storage.Key.{index_prefix, index_catalog_key, index_catalog_prefix}
use dllb.Storage.Key.PrefixEnd.{prefix_end}
use dllb.Storage.Kv.{KvStore, contains, prefix_scan, and_then, map_results}
use dllb.Document.Record.{Document}
use dllb.Document.Encoding.{
  term, encode_index_value_escaped, encode_composite_key_part, id_from_entry,
}

pub data IndexKind : Type 0 where
  btree : IndexKind
  full_text : Bytes → IndexKind
  vector : ℕ → Bytes → IndexKind

pub record IndexDefinition : Type 0 where
  pub name : Bytes
  pub fields : List Bytes
  pub unique : Bool
  pub kind : IndexKind

-- `IndexDefinition::btree`
unfoldable pub btree_index : Bytes → List Bytes → Bool → IndexDefinition
btree_index name fields unique = record {
  name = name;
  fields = fields;
  unique = unique;
  kind = btree;
}

unfoldable pub is_btree : IndexKind → Bool
is_btree btree = true
is_btree _ = false

abbrev pub is_empty {ℓ} : {A : Type ℓ} → List A → Bool
is_empty [] = true
is_empty (_ ∷ _) = false

-- one field of the tuple
unfoldable pub indexed_value : Option Value → Option Value
unfolding is_none
indexed_value none = none
indexed_value (some v) = if is_none v then none else some v

unfoldable pub collect_fields : Map Value → List Bytes → Option (List Value)
unfolding indexed_value
collect_fields fields [] = some []
collect_fields fields (f ∷ fs) = elim (indexed_value (lookup f fields)) [
  | none ↦ none
  | some v ↦ elim (collect_fields fields fs) [ none ↦ none | some vs ↦ some (v ∷ vs) ]
]

unfoldable pub collect_index_values : Document → IndexDefinition → Option (List Value)
unfolding collect_fields
collect_index_values doc idx = elim idx.fields [
  | [] ↦ none
  | f ∷ fs ↦ collect_fields doc.fields (f ∷ fs)
]

module _ (ns db table : Bytes) where
  -- the entry of one index for the values collected, or none
  unfoldable pub entry_of : Bytes → Bytes → Option (List Value) → Result (Map Bytes)
  entry_of name id none = ok []
  entry_of name id (some values) = do
    key_part ← encode_composite_key_part values
    ok ((index_prefix ns db table name ++ (key_part ++ id), []) ∷ [])

  unfoldable pub index_entries : Document → IndexDefinition → Result (Map Bytes)
  index_entries doc idx =
      if is_btree idx.kind
      then if is_empty idx.fields
        then err (index index_has_no_fields)
        else entry_of idx.name doc.id.id (collect_index_values doc idx)
      else ok []

  unfoldable pub build_index_entries : Document → List IndexDefinition → Result (Map Bytes)
  build_index_entries doc [] = ok []
  build_index_entries doc (idx ∷ indexes) = do
    entries ← index_entries doc idx
    rest ← build_index_entries doc indexes
    ok (entries ++ rest)

abbrev pub RangeBound : Type 0
RangeBound = Value × Bool

-- the start and the end of the scan, behind `base`
unfoldable pub scan_start : Bytes → Option RangeBound → Result Bytes
unfolding encode_index_value_escaped
scan_start base none = ok base
scan_start base (some (v, inclusive)) = do
  bound ← encode_index_value_escaped v
  let p = base ++ bound
  ok (if inclusive then p else prefix_end (p ++ term))

unfoldable pub scan_end : Bytes → Option RangeBound → Result Bytes
unfolding encode_index_value_escaped
scan_end base none = ok (prefix_end base)
scan_end base (some (v, inclusive)) = do
  bound ← encode_index_value_escaped v
  let p = base ++ bound
  ok (if inclusive then prefix_end (p ++ term) else p)

-- the ids of the entries that have one
unfoldable pub ids_of_entries : ℕ → ℕ → Map Bytes → List Bytes
unfolding id_from_entry
ids_of_entries region_len field_count [] = []
ids_of_entries region_len field_count ((k, _) ∷ entries) =
    let rest = ids_of_entries region_len field_count entries in
    elim (id_from_entry k region_len field_count) [ none ↦ rest | some id ↦ id ∷ rest ]

-- the check of `check_unique_constraint` over the ids that it found
unfoldable pub other_id : Bytes → Bytes → List Bytes → Result (Unit {0})
other_id name exclude_id [] = ok tt
other_id name exclude_id (id ∷ ids) =
    let rest = other_id name exclude_id ids in
    if beq id exclude_id then rest else err (schema (unique_violated name id))

-- MessagePack of an index definition, which `rmp_serde` writes and reads
pub record DefinitionCodec : Type 0 where
  pub to_vec : IndexDefinition → Attempt Bytes
  pub from_slice : Bytes → Attempt IndexDefinition

module _ (kv : KvStore) (ns db table : Bytes) where
  open kv use {Store, scan, put, delete}

  -- from the bounds on; `start >= end` answers without a scan
  unfoldable pub scan_ids : Store → ℕ → ℕ → Bytes → Bytes → Result (List Bytes)
  scan_ids s region_len field_count start end =
      if lex_le end start
      then ok []
      else (do entries ← scan s start end; ok (ids_of_entries region_len field_count entries))

  unfoldable pub find_ids :
      Store → Bytes → List Value → Option RangeBound → Option RangeBound → ℕ → Result (List Bytes)
  find_ids s index_name eq lower upper field_count = do
    let region = index_prefix ns db table index_name
    eq_part ← encode_composite_key_part eq
    let base = region ++ eq_part
    start ← scan_start base lower
    end ← scan_end base upper
    scan_ids s (length region) field_count start end

  unfoldable pub find_by_index : Store → Bytes → Value → Result (List Bytes)
  find_by_index s index_name value = find_ids s index_name (value ∷ []) none none 1

  unfoldable pub find_ids_by_range :
      Store → Bytes → Option RangeBound → Option RangeBound → Result (List Bytes)
  find_ids_by_range s index_name lower upper = find_ids s index_name [] lower upper 1

  unfoldable pub check_unique_constraint :
      Store → IndexDefinition → List Value → Bytes → Result (Unit {0})
  check_unique_constraint s idx values exclude_id =
      if idx.unique
      then (do
        ids ← find_ids s idx.name values none none (length idx.fields)
        other_id idx.name exclude_id ids)
      else ok tt

  unfoldable pub remove_index_definition : Bytes → Store → Result Bool × Store
  remove_index_definition index_name s =
      let key = index_catalog_key ns db table index_name in
      elim (contains kv s key) [
        | err e ↦ (err e, s)
        | ok false ↦ (ok false, s)
        | ok true ↦
            let (outcome, s') = delete key s in
            elim outcome [ err e ↦ (err e, s') | ok _ ↦ (ok true, s') ]
      ]

  module _ (codec : DefinitionCodec) where
    unfoldable pub index_definition_kv : IndexDefinition → Result (Bytes × Bytes)
    index_definition_kv def = do
      bytes ← or_serialization (codec.to_vec def)
      ok (index_catalog_key ns db table def.name, bytes)

    unfoldable pub save_index_definition : IndexDefinition → Store → Result (Unit {0}) × Store
    save_index_definition def s = elim (index_definition_kv def) [
      | err e ↦ (err e, s)
      | ok (key, bytes) ↦ put key bytes s
    ]

    unfoldable pub load_index_definitions : Store → Result (List IndexDefinition)
    load_index_definitions s = do
      entries ← prefix_scan kv s (index_catalog_prefix ns db table)
      map_results (λ (e : Bytes × Bytes). or_serialization (codec.from_slice e.1)) entries
