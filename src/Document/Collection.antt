-- ===== src/Document/Collection.antt =====
-- crates/document/src/collection.rs: the operations on the documents of one table. What an operation
-- reads before its one write is a function of the store; the write returns the new store.
pub mod Plans
pub mod ReadBack
pub mod Frame
pub mod Unique
pub mod Whole
pub mod Upsert
pub mod Indexed
use dllb.Common.{
  ℕ, List, [], ◌∷◌, ◌++◌, Bytes, Bool, true, false, Option, none, some, length, map, if◌then◌else◌,
}
use dllb.Common.Map.{Map, insert_all, keys}
use dllb.Core.{
  Value, RecordId, TableDefinition, Result, ok, err, ◌>>=◌, ◌>>◌, ok_or, other, not_found,
  record_exists, record_not_found, storage, invalid_utf8,
}
use dllb.Common.Utf8.{from_utf8}
use dllb.Storage.Key.{document_key, table_prefix, tag_document}
use dllb.Storage.Key.Parse.{KeyParts, parse_key}
use dllb.Storage.Kv.{KvStore, contains, prefix_scan, map_results}
use dllb.Document.Record.{Document}
use dllb.Document.Validate.{validate_document}
use dllb.Document.Index.{
  IndexDefinition, RangeBound, DefinitionCodec, collect_index_values, build_index_entries,
  find_by_index, find_ids, find_ids_by_range, check_unique_constraint, load_index_definitions,
}
use dllb.Document.Serde.{FieldsCodec, serialize, deserialize}

pub record Collection : Type 0 where
  pub ns : Bytes
  pub db : Bytes
  pub table : Bytes
  pub table_schema : Option TableDefinition
  pub indexes : List IndexDefinition

-- `Collection::new`
abbrev pub new_collection : Bytes → Bytes → Bytes → Collection
new_collection ns db table = record {
  ns = ns;
  db = db;
  table = table;
  table_schema = none;
  indexes = [];
}

unfoldable pub with_schema : TableDefinition → Collection → Collection
with_schema schema c = record c { table_schema = some schema }

unfoldable pub with_index : IndexDefinition → Collection → Collection
with_index idx c = record c { indexes = c.indexes ++ idx ∷ [] }

unfoldable pub with_indexes : List IndexDefinition → Collection → Collection
with_indexes indexes c = record c { indexes = indexes }

unfoldable pub validate : Collection → Document → Result (Unit {0})
validate c doc = elim c.table_schema [ none ↦ ok tt | some schema ↦ validate_document doc schema ]

-- `RecordId::new(&self.table, id)`
abbrev pub id_in : Collection → Bytes → RecordId
id_in c id = record { table = c.table; id = id }

abbrev pub key_in : Collection → Bytes → Bytes
key_in c = document_key c.ns c.db c.table

abbrev pub entries_in : Collection → Document → Result (Map Bytes)
entries_in c doc = build_index_entries c.ns c.db c.table doc c.indexes

-- a write that follows a successful read
abbrev pub then_write :
    {S A B : Type 0} → Result A → (A → S → Result (Unit {0}) × S) → (A → B) → S → Result B × S
then_write (err e) write reply s = (err e, s)
then_write (ok a) write reply s =
    let (outcome, s') = write a s in (outcome >>= λ _. ok (reply a), s')

module _ (kv : KvStore) (codec : FieldsCodec) (c : Collection) where
  open kv use {
    Store, put_batch, delete_batch, write_batch, multi_get, count_prefix, scan_prefix_keys,
  }

  unfoldable pub check_unique : Store → Bytes → Document → IndexDefinition → Result (Unit {0})
  check_unique s id doc idx =
      if idx.unique
      then elim (collect_index_values doc idx) [
        | none ↦ ok tt
        | some values ↦ check_unique_constraint kv c.ns c.db c.table s idx values id
      ]
      else ok tt

  unfoldable pub check_all_unique :
      Store → Bytes → Document → List IndexDefinition → Result (Unit {0})
  check_all_unique s id doc [] = ok tt
  check_all_unique s id doc (idx ∷ indexes) = do
    check_unique s id doc idx
    check_all_unique s id doc indexes

  unfoldable pub create_ops : Store → Bytes → Document → Result (Map Bytes)
  create_ops s id doc = do
    validate c doc
    exists ← contains kv s (key_in c id)
    if exists then err (other (record_exists id)) else do
      check_all_unique s id doc c.indexes
      doc_bytes ← serialize codec doc
      idx_entries ← entries_in c doc
      ok ((key_in c id, doc_bytes) ∷ idx_entries)

  unfoldable pub create_inner : Bytes → Document → Store → Result RecordId × Store
  create_inner id doc s = then_write (create_ops s id doc) put_batch (λ _. doc.id) s

  unfoldable pub create : Document → Store → Result RecordId × Store
  create doc = create_inner doc.id.id doc

  unfoldable pub create_with_id : Bytes → Document → Store → Result RecordId × Store
  create_with_id id doc = create_inner id (record doc { id = id_in c id })

  unfoldable pub create_to_ops : Bytes → Document → Result (RecordId × Map Bytes)
  create_to_ops id doc =
      let doc' : Document = record doc { id = id_in c id } in
      do
        validate c doc'
        doc_bytes ← serialize codec doc'
        idx_entries ← entries_in c doc'
        ok (id_in c id, (key_in c id, doc_bytes) ∷ idx_entries)

  unfoldable pub get : Store → Bytes → Result (Option Document)
  get s id = do
    found ← kv.get s (key_in c id)
    elim found [
      | none ↦ ok none
      | some bytes ↦ (do doc ← deserialize codec (id_in c id) bytes; ok (some doc))
    ]

  unfoldable pub get_existing : Store → Bytes → Result Document
  get_existing s id = do found ← get s id; ok_or found (not_found (record_not_found id))

  -- what `replace_with_indexes` puts and deletes
  unfoldable pub replace_ops : Bytes → Document → Document → Result (Map Bytes × List Bytes)
  replace_ops id old new = do
    doc_bytes ← serialize codec new
    old_idx ← entries_in c old
    new_idx ← entries_in c new
    ok ((key_in c id, doc_bytes) ∷ new_idx, keys old_idx)

  abbrev pub merged : Document → Map Value → Document
  merged old fields = record { id = old.id; fields = insert_all fields old.fields }

  unfoldable pub update_ops : Store → Bytes → Map Value → Result (Map Bytes × List Bytes)
  update_ops s id fields = do
    old ← get_existing s id
    let new : Document = record { id = old.id; fields = fields }
    validate c new
    replace_ops id old new

  unfoldable pub merge_ops : Store → Bytes → Map Value → Result (Map Bytes × List Bytes)
  merge_ops s id fields = do
    old ← get_existing s id
    validate c (merged old fields)
    replace_ops id old (merged old fields)

  abbrev pub replace : Map Bytes × List Bytes → Store → Result (Unit {0}) × Store
  replace ops = write_batch ops.0 ops.1

  unfoldable pub update : Bytes → Map Value → Store → Result (Unit {0}) × Store
  update id fields s = then_write (update_ops s id fields) replace (λ _. tt) s

  unfoldable pub merge : Bytes → Map Value → Store → Result (Unit {0}) × Store
  merge id fields s = then_write (merge_ops s id fields) replace (λ _. tt) s

  -- `upsert` after the test for the record
  unfoldable pub upsert_by :
      Result Bool → Bytes → Document → Map Value → Store → Result (RecordId × Bool) × Store
  upsert_by (err e) id doc fields s = (err e, s)
  upsert_by (ok true) id doc fields s =
      let (outcome, s') = merge id fields s in (outcome >>= λ _. ok (id_in c id, false), s')
  upsert_by (ok false) id doc fields s =
      let (outcome, s') = create_inner id doc s in
      (outcome >>= λ created_id. ok (created_id, true), s')

  unfoldable pub upsert : Bytes → Document → Map Value → Store → Result (RecordId × Bool) × Store
  upsert id doc fields s = upsert_by (contains kv s (key_in c id)) id doc fields s

  unfoldable pub upsert_to_ops :
      Store → Bytes → Document → Map Value → Result (RecordId × Bool × Map Bytes × List Bytes)
  upsert_to_ops s id doc fields = do
    exists ← contains kv s (key_in c id)
    if exists
        then (do ops ← merge_ops s id fields; ok (id_in c id, false, ops.0, ops.1))
        else (do ops ← create_to_ops id doc; ok (ops.0, true, ops.1, []))

  -- the record and index keys to delete, or none
  unfoldable pub delete_keys : Store → Bytes → Result (Option (List Bytes))
  delete_keys s id = do
    found ← get s id
    elim found [
      | none ↦ ok none
      | some doc ↦ (do idx_entries ← entries_in c doc; ok (some (key_in c id ∷ keys idx_entries)))
    ]

  unfoldable pub delete : Bytes → Store → Result Bool × Store
  delete id s = elim (delete_keys s id) [
    | err e ↦ (err e, s)
    | ok found ↦ elim found [
      | none ↦ (ok false, s)
      | some ks ↦ let (outcome, s') = delete_batch ks s in (outcome >>= λ _. ok true, s')
    ]
  ]

  -- the id in a document key
  unfoldable pub id_of_key : Bytes → Result Bytes
  id_of_key k = do parts ← parse_key k; ok_or (from_utf8 parts.remainder) (storage invalid_utf8)

  unfoldable pub document_of_entry : Bytes × Bytes → Result Document
  document_of_entry e = do id ← id_of_key e.0; deserialize codec (id_in c id) e.1

  unfoldable pub scan_all : Store → Result (List Document)
  scan_all s = do
    entries ← prefix_scan kv s (table_prefix c.ns c.db c.table tag_document)
    map_results document_of_entry entries

  unfoldable pub scan_ids : Store → Result (List Bytes)
  scan_ids s = do
    ks ← scan_prefix_keys s (table_prefix c.ns c.db c.table tag_document)
    map_results id_of_key ks

  unfoldable pub count : Store → Result ℕ
  count s = count_prefix s (table_prefix c.ns c.db c.table tag_document)

  -- the loop of `get_many` over the ids with their values
  unfoldable pub found_documents : List Bytes → List (Option Bytes) → Result (List Document)
  found_documents [] values = ok []
  found_documents (id ∷ ids) [] = ok []
  found_documents (id ∷ ids) (none ∷ values) = found_documents ids values
  found_documents (id ∷ ids) (some bytes ∷ values) = do
    doc ← deserialize codec (id_in c id) bytes
    docs ← found_documents ids values
    ok (doc ∷ docs)

  unfoldable pub get_many : Store → List Bytes → Result (List Document)
  get_many s [] = ok []
  get_many s (id ∷ ids) = do
    values ← multi_get s (map (key_in c) (id ∷ ids))
    found_documents (id ∷ ids) values

  unfoldable pub find_ids_by_index : Store → Bytes → Value → Result (List Bytes)
  find_ids_by_index = find_by_index kv c.ns c.db c.table

  unfoldable pub find_documents_by_index : Store → Bytes → Value → Result (List Document)
  find_documents_by_index s index_name value = do
    ids ← find_ids_by_index s index_name value
    get_many s ids

  unfoldable pub find_ids_in_range :
      Store → Bytes → Option RangeBound → Option RangeBound → Result (List Bytes)
  find_ids_in_range = find_ids_by_range kv c.ns c.db c.table

  unfoldable pub find_ids_for_scan :
      Store → Bytes → List Value → Option RangeBound → Option RangeBound → ℕ → Result (List Bytes)
  find_ids_for_scan = find_ids kv c.ns c.db c.table

-- `Collection::load`
unfoldable pub load :
    (kv : KvStore) → DefinitionCodec → kv.Store → Bytes → Bytes → Bytes → Result Collection
load kv codec s ns db table = do
  indexes ← load_index_definitions kv ns db table codec s
  ok (record { ns = ns; db = db; table = table; table_schema = none; indexes = indexes })
