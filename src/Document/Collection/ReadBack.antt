-- ===== src/Document/Collection/ReadBack.antt =====
-- What a read returns after a write (crates/document/src/collection.rs), over a store that keeps the
-- contract of `KvStore` and a codec that reads back what it wrote.
use dllb.Common.{
  List, [], ◌∷◌, ◌++◌, Bytes, Option, none, some, ◌≡◌, ◌≢◌, refl, arith, inl, inr, beq_iff,
  beq_refl, All, Option-cases,
}
use dllb.Common.Map.{
  Map, lookup, insert, insert_all, remove_all, lookup-insert, lookup-insert_all_none, lookup-append,
  keys,
}
use dllb.Core.{Value, RecordId, Result, ok, err, Result-cases, done, other, record_exists}
use dllb.Storage.Key.{document_key, index_prefix}
use dllb.Storage.Key.Parse.{IsScope, IsSegment}
use dllb.Storage.Key.Region.{document, indexed, encode, encode-injective}
use dllb.Storage.Kv.{KvStore, IsKvStore, contains}
use dllb.Document.Record.{Document}
use dllb.Document.Index.{
  IndexDefinition, entry_of, index_entries, build_index_entries, collect_index_values,
}
use dllb.Document.Encoding.{encode_composite_key_part}
use dllb.Document.Serde.{FieldsCodec, IsCodec, deserialize}
use dllb.Document.Collection.{
  Collection, id_in, key_in, entries_in, then_write, validate, create_ops, create_inner, get,
  update_ops, merge_ops, update, merge, replace,
}
use dllb.Document.Collection.Plans.{
  create_ops-Created, Replaced, replaced_fields, merged_fields, update_ops-Changed,
  merge_ops-Changed,
}

-- The names of a collection can be segments of a key.
pub record IsNamed (c : Collection) : Type 0 where
  pub scope : IsScope c.ns c.db c.table
  pub names : All (λ (idx : IndexDefinition). IsSegment idx.name) c.indexes

-- An index entry is not a document.
index_key-ne-document_key :
    (ns db table name id rest : Bytes)
    → IsScope ns db table
    → IsSegment name
    → index_prefix ns db table name ++ rest ≢ document_key ns db table id
index_key-ne-document_key ns db table name id rest scope clean e =
    let (_, _, _, same) =
      encode-injective ns db table ns db table (indexed name rest) (document id) scope scope clean
        tt (unfold encode in e) in
    absurd (ground arith)

module _ (ns db table : Bytes) (scope : IsScope ns db table) (doc : Document) (id : Bytes) where
  lookup-entry_of :
      (name eid : Bytes) (found : Option (List Value)) (es : Map Bytes)
      → IsSegment name
      → entry_of ns db table name eid found ≡ ok es
      → lookup (document_key ns db table id) es ≡ none
  unfolding entry_of
  lookup-entry_of name eid none es clean h = ground arith
  lookup-entry_of name eid (some values) es clean h =
      elim (Result-cases (encode_composite_key_part values)) [
        | inr (x, e) ↦ absurd (ground arith)
        | inl (part, e) ↦
            let key = index_prefix ns db table name ++ (part ++ eid) in
            ground (
              arith,
              index_key-ne-document_key ns db table name id (part ++ eid) scope clean,
              beq_iff key (document_key ns db table id),
            )
      ]

  lookup-index_entries :
      (idx : IndexDefinition) (es : Map Bytes)
      → IsSegment idx.name
      → index_entries ns db table doc idx ≡ ok es
      → lookup (document_key ns db table id) es ≡ none
  unfolding index_entries
  lookup-index_entries idx es clean h =
      ground (arith, lookup-entry_of idx.name doc.id.id (collect_index_values doc idx) es clean)

  lookup-build_index_entries :
      (indexes : List IndexDefinition) (es : Map Bytes)
      → All (λ (idx : IndexDefinition). IsSegment idx.name) indexes
      → build_index_entries ns db table doc indexes ≡ ok es
      → lookup (document_key ns db table id) es ≡ none
  unfolding build_index_entries
  lookup-build_index_entries [] es clean h = ground arith
  lookup-build_index_entries (idx ∷ indexes) es clean h =
      elim (Result-cases (index_entries ns db table doc idx)) [
        | inr (x, e) ↦ absurd (ground arith)
        | inl (first, e) ↦ elim (Result-cases (build_index_entries ns db table doc indexes)) [
          | inr (x, f) ↦ absurd (ground arith)
          | inl (rest, f) ↦
              let k = document_key ns db table id in
              ground (
                arith,
                lookup-append k first rest (lookup-index_entries idx first clean.0 e),
                lookup-build_index_entries indexes rest clean.1 f,
              )
        ]
      ]

module _ (kv : KvStore) (laws : IsKvStore kv) (codec : FieldsCodec) (reads : IsCodec codec)
    (c : Collection) (named : IsNamed c) where
  open kv use {Store, put_batch, write_batch, delete_batch}
  open laws use {content, get-eq}

  get-some :
      (s : Store) (id bytes : Bytes) (fields : Map Value)
      → lookup (key_in c id) (content s) ≡ some bytes
      → codec.to_vec fields ≡ done bytes
      → get kv codec c s id ≡ ok (some (record { id = id_in c id; fields = fields }))
  unfolding get deserialize
  get-some s id bytes fields h e =
      ground (arith, get-eq s (key_in c id), reads.from_slice-to_vec fields bytes e)

  pub get-none :
      (s : Store) (id : Bytes)
      → lookup (key_in c id) (content s) ≡ none
      → get kv codec c s id ≡ ok none
  unfolding get
  get-none s id h = ground (arith, get-eq s (key_in c id))

  pub lookup-entries :
      (id : Bytes) (doc : Document) (es : Map Bytes)
      → entries_in c doc ≡ ok es
      → lookup (key_in c id) es ≡ none
  lookup-entries id doc es h =
      lookup-build_index_entries c.ns c.db c.table named.scope doc id c.indexes es named.names h

  -- the record's key after its bytes and its index entries are put
  lookup-puts :
      (id bytes : Bytes) (es m : Map Bytes)
      → lookup (key_in c id) es ≡ none
      → lookup (key_in c id) (insert_all ((key_in c id, bytes) ∷ es) m) ≡ some bytes
  unfolding insert_all
  lookup-puts id bytes es m h = ground (
    arith,
    lookup-insert_all_none (key_in c id) es (insert (key_in c id) bytes m) h,
    lookup-insert (key_in c id) (key_in c id) bytes m,
    beq_refl (key_in c id),
  )

  -- A plan that is written answers with its reply, in the store that the write leaves.
  pub then_write-ok :
      {A B : Type 0} (plan : Result A) (write : A → Store → Result (Unit {0}) × Store)
      (reply : A → B) (s : Store) (b : B)
      → (then_write plan write reply s).0 ≡ ok b
      → (a : A) × (plan ≡ ok a)
        × (b ≡ reply a)
        × ((then_write plan write reply s).1 ≡ (write a s).1)
  then_write-ok (err e) write reply s b h = absurd (ground arith)
  then_write-ok (ok a) write reply s b h = elim (Result-cases (write a s).0) [
    | inl (u, e) ↦ (a, refl, ground arith, refl)
    | inr (x, e) ↦ absurd (ground arith)
  ]

  -- Over a store that keeps the contract of `KvStore`, a codec that reads back what it wrote
  -- and a collection whose names have no separator: a creation that succeeds returns the
  -- document's own id, and a read of the id that it was created under then returns the
  -- document's fields under that id.
  pub get-create_inner :
      (s : Store) (id : Bytes) (doc : Document) (r : RecordId)
      → (create_inner kv codec c id doc s).0 ≡ ok r
      → (r ≡ doc.id)
        × (get kv codec c (create_inner kv codec c id doc s).1 id
            ≡ ok (some (record { id = id_in c id; fields = doc.fields })))
  unfolding create_inner
  get-create_inner s id doc r h =
      let (ops, plan, reply, left) =
        then_write-ok (create_ops kv codec c s id doc) put_batch (λ _. doc.id) s r h in
      let made = create_ops-Created kv codec c s id doc ops plan in
      (
        reply,
        rw left (
            get-some (put_batch ops s).1 id made.bytes doc.fields
              (rw laws.content-put_batch (
                rw made.puts (
                  lookup-puts id made.bytes made.entries (content s)
                    (lookup-entries id doc made.entries made.indexed))))
              made.serialized),
      )

  get-write :
      (s : Store) (id : Bytes) (old new : Document) (ops : Map Bytes × List Bytes)
      → Replaced kv codec c id old new ops
      → get kv codec c (write_batch ops.0 ops.1 s).1 id
        ≡ ok (some (record { id = id_in c id; fields = new.fields }))
  get-write s id old new ops made =
      get-some (write_batch ops.0 ops.1 s).1 id made.bytes new.fields
        (rw laws.content-write_batch (
          rw made.puts (
            lookup-puts id made.bytes made.new_entries
              (remove_all (keys made.old_entries) (content s))
              (lookup-entries id new made.new_entries made.indexed_new))))
        made.serialized

  -- Over a store that keeps the contract of `KvStore`, a codec that reads back what it wrote
  -- and a collection whose names have no separator: after an update that succeeds a read
  -- returns the new fields and no other.
  pub get-update :
      (s : Store) (id : Bytes) (fields : Map Value)
      → (update kv codec c id fields s).0 ≡ ok tt
      → get kv codec c (update kv codec c id fields s).1 id
        ≡ ok (some (record { id = id_in c id; fields = fields }))
  unfolding update
  get-update s id fields h =
      let (ops, plan, reply, left) =
        then_write-ok (update_ops kv codec c s id fields) (replace kv codec c) (λ _. tt) s tt h in
      let made = update_ops-Changed kv codec c s id fields ops plan in
      rw left
        (get-write s id made.old (replaced_fields kv codec c fields made.old) ops made.replaced)

  -- Over a store that keeps the contract of `KvStore`, a codec that reads back what it wrote
  -- and a collection whose names have no separator: a merge that succeeds found the record, and
  -- a read then returns the old fields with the given ones put over them.
  pub get-merge :
      (s : Store) (id : Bytes) (fields : Map Value)
      → (merge kv codec c id fields s).0 ≡ ok tt
      → (old : Document) × (get kv codec c s id ≡ ok (some old))
        × (get kv codec c (merge kv codec c id fields s).1 id
            ≡ ok (some (record { id = id_in c id; fields = insert_all fields old.fields })))
  unfolding merge
  get-merge s id fields h =
      let (ops, plan, reply, left) =
        then_write-ok (merge_ops kv codec c s id fields) (replace kv codec c) (λ _. tt) s tt h in
      let made = merge_ops-Changed kv codec c s id fields ops plan in
      (
        made.old,
        made.existing,
        rw left
            (get-write s id made.old (merged_fields kv codec c fields made.old) ops made.replaced),
      )

  -- Over a store that keeps the contract of `KvStore`, a codec that reads back what it wrote
  -- and a collection whose names have no separator: where a read of an id returns a record, and
  -- validation accepts the document, a creation under that id answers that the record exists,
  -- and the store is as it was.
  pub create_inner-existing :
      (s : Store) (id : Bytes) (doc old : Document)
      → get kv codec c s id ≡ ok (some old)
      → validate c doc ≡ ok tt
      → create_inner kv codec c id doc s ≡ (err (other (record_exists id)), s)
  unfolding create_inner create_ops get contains
  create_inner-existing s id doc old h v = elim (Option-cases (lookup (key_in c id) (content s))) [
    | inl e ↦ absurd (ground (arith, get-eq s (key_in c id)))
    | inr (bytes, e) ↦ ground (arith, get-eq s (key_in c id))
  ]
