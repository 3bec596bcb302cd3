-- ===== src/Document/Collection/Upsert.antt =====
-- `upsert` of crates/document/src/collection.rs.
use dllb.Common.{Bytes, Bool, true, false, none, some, ◌≡◌, arith, inl, inr, Option-cases}
use dllb.Common.Map.{Map, lookup, insert_all}
use dllb.Core.{Value, RecordId, ok, Result-cases}
use dllb.Storage.Kv.{KvStore, IsKvStore, contains}
use dllb.Document.Record.{Document}
use dllb.Document.Serde.{FieldsCodec, IsCodec}
use dllb.Document.Collection.{
  Collection, id_in, key_in, create_inner, get, merge, upsert_by, upsert,
}
use dllb.Document.Collection.ReadBack.{IsNamed, get-none, get-create_inner, get-merge}

module _ (kv : KvStore) (codec : FieldsCodec) (c : Collection) where
  -- what an upsert that answers `created` has done to a record
  abbrev pub Upserted : kv.Store → kv.Store → Bytes → Document → Map Value → Bool → Type 0
  Upserted s t id doc fields true =
      (get kv codec c s id ≡ ok none)
      × (get kv codec c t id ≡ ok (some (record { id = id_in c id; fields = doc.fields })))
  Upserted s t id doc fields false =
      (old : Document) × (get kv codec c s id ≡ ok (some old))
      × (get kv codec c t id
          ≡ ok (some (record { id = id_in c id; fields = insert_all fields old.fields })))

module _ (kv : KvStore) (laws : IsKvStore kv) (codec : FieldsCodec) (reads : IsCodec codec)
    (c : Collection) (named : IsNamed c) where
  open kv use {Store}
  open laws use {content, get-eq}

  -- Over a store that keeps the contract of `KvStore`, a codec that reads back what it wrote
  -- and a collection whose names have no separator: where an upsert answers that it created the
  -- record, a read found none before and returns the document's fields after; where it answers
  -- that it did not, a read found the record before and after returns its fields with the given
  -- ones put over them.
  pub get-upsert :
      (s : Store) (id : Bytes) (doc : Document) (fields : Map Value) (r : RecordId) (created : Bool)
      → (upsert kv codec c id doc fields s).0 ≡ ok (r, created)
      → Upserted kv codec c s (upsert kv codec c id doc fields s).1 id doc fields created
  unfolding upsert upsert_by contains
  get-upsert s id doc fields r created h = elim (Option-cases (lookup (key_in c id) (content s))) [
    | inl e ↦ elim (Result-cases (create_inner kv codec c id doc s).0) [
      | inr (x, f) ↦ absurd (ground (arith, get-eq s (key_in c id)))
      | inl (made, f) ↦
          let is_new : created ≡ true = ground (arith, get-eq s (key_in c id)) in
          rw is_new (
            rw (get-eq s (key_in c id)) (
              rw e (
                get-none kv laws codec reads c named s id e,
                (get-create_inner kv laws codec reads c named s id doc made f).1,
              )))
    ]
    | inr (v, e) ↦ elim (Result-cases (merge kv codec c id fields s).0) [
      | inr (x, f) ↦ absurd (ground (arith, get-eq s (key_in c id)))
      | inl (u, f) ↦
          let is_old : created ≡ false = ground (arith, get-eq s (key_in c id)) in
          rw is_old (
            rw (get-eq s (key_in c id))
              (rw e (get-merge kv laws codec reads c named s id fields f)))
    ]
  ]
