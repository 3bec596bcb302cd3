-- ===== src/Document/Collection/Plans.antt =====
-- What a plan that succeeds has read and computed (crates/document/src/collection.rs).
use dllb.Common.{List, ◌∷◌, Bytes, false, some, ◌≡◌, arith, inl, inr, Option-cases}
use dllb.Common.Map.{Map, insert_all, keys}
use dllb.Core.{Value, ok, Result-cases, done, Attempt-cases}
use dllb.Storage.Kv.{KvStore, contains}
use dllb.Document.Record.{Document}
use dllb.Document.Serde.{FieldsCodec, serialize}
use dllb.Document.Collection.{
  Collection, key_in, entries_in, validate, check_all_unique, create_ops, get_existing, get,
  replace_ops, update_ops, merge_ops,
}

module _ (codec : FieldsCodec) where
  serialize_lem :
      (doc : Document) (bytes : Bytes)
      → serialize codec doc ≡ ok bytes
      → codec.to_vec doc.fields ≡ done bytes
  unfolding serialize
  serialize_lem doc bytes h = elim (Attempt-cases (codec.to_vec doc.fields)) [
    | inl (b, e) ↦ ground arith
    | inr (t, e) ↦ absurd (ground arith)
  ]

module _ (kv : KvStore) (codec : FieldsCodec) (c : Collection) where
  -- A creation that may go on: what it checked, and what it puts.
  pub record Created (s : kv.Store) (id : Bytes) (doc : Document) (ops : Map Bytes) : Type 0 where
    pub bytes : Bytes
    pub entries : Map Bytes
    pub valid : validate c doc ≡ ok tt
    pub absent : contains kv s (key_in c id) ≡ ok false
    pub unique : check_all_unique kv codec c s id doc c.indexes ≡ ok tt
    pub serialized : codec.to_vec doc.fields ≡ done bytes
    pub indexed : entries_in c doc ≡ ok entries
    pub puts : ops ≡ (key_in c id, bytes) ∷ entries

  pub create_ops-Created :
      (s : kv.Store) (id : Bytes) (doc : Document) (ops : Map Bytes)
      → create_ops kv codec c s id doc ≡ ok ops
      → Created s id doc ops
  unfolding create_ops
  create_ops-Created s id doc ops h = elim (Result-cases (validate c doc)) [
    | inr (x, a) ↦ absurd (ground arith)
    | inl (u, a) ↦ elim (Result-cases (contains kv s (key_in c id))) [
      | inr (x, b) ↦ absurd (ground arith)
      | inl (exists, b) ↦ elim (Result-cases (check_all_unique kv codec c s id doc c.indexes)) [
        | inr (x, d) ↦ absurd (ground arith)
        | inl (v, d) ↦ elim (Result-cases (serialize codec doc)) [
          | inr (x, e) ↦ absurd (ground arith)
          | inl (bytes, e) ↦ elim (Result-cases (entries_in c doc)) [
            | inr (x, f) ↦ absurd (ground arith)
            | inl (entries, f) ↦ record {
              bytes = bytes;
              entries = entries;
              valid = a;
              absent = ground arith;
              unique = d;
              serialized = serialize_lem codec doc bytes e;
              indexed = f;
              puts = ground arith;
            }
          ]
        ]
      ]
    ]
  ]

  -- A replacement that may go on.
  pub record Replaced (id : Bytes) (old new : Document) (ops : Map Bytes × List Bytes)
      : Type 0 where
    pub bytes : Bytes
    pub old_entries : Map Bytes
    pub new_entries : Map Bytes
    pub serialized : codec.to_vec new.fields ≡ done bytes
    pub indexed_old : entries_in c old ≡ ok old_entries
    pub indexed_new : entries_in c new ≡ ok new_entries
    pub puts : ops ≡ ((key_in c id, bytes) ∷ new_entries, keys old_entries)

  pub replace_ops-Replaced :
      (id : Bytes) (old new : Document) (ops : Map Bytes × List Bytes)
      → replace_ops kv codec c id old new ≡ ok ops
      → Replaced id old new ops
  unfolding replace_ops
  replace_ops-Replaced id old new ops h = elim (Result-cases (serialize codec new)) [
    | inr (x, a) ↦ absurd (ground arith)
    | inl (bytes, a) ↦ elim (Result-cases (entries_in c old)) [
      | inr (x, b) ↦ absurd (ground arith)
      | inl (old_entries, b) ↦ elim (Result-cases (entries_in c new)) [
        | inr (x, d) ↦ absurd (ground arith)
        | inl (new_entries, d) ↦ record {
          bytes = bytes;
          old_entries = old_entries;
          new_entries = new_entries;
          serialized = serialize_lem codec new bytes a;
          indexed_old = b;
          indexed_new = d;
          puts = ground arith;
        }
      ]
    ]
  ]

  -- An update or a merge that may go on read the record, validated the new one and replaces it.
  pub record Changed (s : kv.Store) (id : Bytes) (change : Document → Document)
      (ops : Map Bytes × List Bytes) : Type 0 where
    pub old : Document
    pub existing : get kv codec c s id ≡ ok (some old)
    pub valid : validate c (change old) ≡ ok tt
    pub replaced : Replaced id old (change old) ops

  get_existing_lem :
      (s : kv.Store) (id : Bytes) (old : Document)
      → get_existing kv codec c s id ≡ ok old
      → get kv codec c s id ≡ ok (some old)
  unfolding get_existing
  get_existing_lem s id old h = elim (Result-cases (get kv codec c s id)) [
    | inr (x, a) ↦ absurd (ground arith)
    | inl (found, a) ↦ elim (Option-cases found) [
      | inl b ↦ absurd (ground arith)
      | inr (d, b) ↦ ground arith
    ]
  ]

  abbrev pub replaced_fields : Map Value → Document → Document
  replaced_fields fields old = record { id = old.id; fields = fields }

  pub update_ops-Changed :
      (s : kv.Store) (id : Bytes) (fields : Map Value) (ops : Map Bytes × List Bytes)
      → update_ops kv codec c s id fields ≡ ok ops
      → Changed s id (replaced_fields fields) ops
  unfolding update_ops
  update_ops-Changed s id fields ops h = elim (Result-cases (get_existing kv codec c s id)) [
    | inr (x, a) ↦ absurd (ground arith)
    | inl (old, a) ↦ elim (Result-cases (validate c (replaced_fields fields old))) [
      | inr (x, b) ↦ absurd (ground arith)
      | inl (u, b) ↦ record {
        old = old;
        existing = get_existing_lem s id old a;
        valid = b;
        replaced = replace_ops-Replaced id old (replaced_fields fields old) ops (ground arith);
      }
    ]
  ]

  abbrev pub merged_fields : Map Value → Document → Document
  merged_fields fields old = record { id = old.id; fields = insert_all fields old.fields }

  pub merge_ops-Changed :
      (s : kv.Store) (id : Bytes) (fields : Map Value) (ops : Map Bytes × List Bytes)
      → merge_ops kv codec c s id fields ≡ ok ops
      → Changed s id (merged_fields fields) ops
  unfolding merge_ops
  merge_ops-Changed s id fields ops h = elim (Result-cases (get_existing kv codec c s id)) [
    | inr (x, a) ↦ absurd (ground arith)
    | inl (old, a) ↦ elim (Result-cases (validate c (merged_fields fields old))) [
      | inr (x, b) ↦ absurd (ground arith)
      | inl (u, b) ↦ record {
        old = old;
        existing = get_existing_lem s id old a;
        valid = b;
        replaced = replace_ops-Replaced id old (merged_fields fields old) ops (ground arith);
      }
    ]
  ]
