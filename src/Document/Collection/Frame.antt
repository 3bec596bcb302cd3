-- ===== src/Document/Collection/Frame.antt =====
-- Deletion, and what the writes of one record leave alone (crates/document/src/collection.rs).
use dllb.Common.{
  List, ◌∷◌, Bytes, true, none, some, ◌≡◌, ◌≢◌, arith, ◌∙◌, inl, inr, beq_iff, Option-cases,
}
use dllb.Common.Map.{
  Map, lookup, insert, remove, insert_all, remove_all, lookup-insert, lookup-remove,
  lookup-insert_all_none, lookup-remove_all, lookup-remove_all_ne, any-keys, keys,
}
use dllb.Core.{Value, RecordId, ok, Result-cases}
use dllb.Storage.Key.Region.{document, encode, encode-injective}
use dllb.Storage.Kv.{KvStore, IsKvStore}
use dllb.Document.Record.{Document}
use dllb.Document.Serde.{FieldsCodec, IsCodec}
use dllb.Document.Collection.{
  Collection, key_in, entries_in, create_ops, create_inner, get, update_ops, merge_ops, update,
  merge, replace, delete, delete_keys,
}
use dllb.Document.Collection.Plans.{
  create_ops-Created, Replaced, replaced_fields, merged_fields, update_ops-Changed,
  merge_ops-Changed,
}
use dllb.Document.Collection.ReadBack.{IsNamed, lookup-entries, get-none, then_write-ok}

module _ (kv : KvStore) (laws : IsKvStore kv) (codec : FieldsCodec) (reads : IsCodec codec)
    (c : Collection) (named : IsNamed c) where
  open kv use {Store, put_batch, write_batch, delete_batch}
  open laws use {content, get-eq}

  key_in-ne : (id j : Bytes) → id ≢ j → key_in c id ≢ key_in c j
  key_in-ne id j h e =
      let (_, _, _, same) =
        encode-injective c.ns c.db c.table c.ns c.db c.table (document id) (document j) named.scope
          named.scope tt tt (unfold encode in e) in
      h (ground arith)

  get-same :
      (s t : Store) (j : Bytes)
      → lookup (key_in c j) (content t) ≡ lookup (key_in c j) (content s)
      → get kv codec c t j ≡ get kv codec c s j
  unfolding get
  get-same s t j h = ground (arith, get-eq s (key_in c j), get-eq t (key_in c j))

  lookup-puts_ne :
      (id j bytes : Bytes) (es m : Map Bytes)
      → id ≢ j
      → lookup (key_in c j) es ≡ none
      → lookup (key_in c j) (insert_all ((key_in c id, bytes) ∷ es) m) ≡ lookup (key_in c j) m
  unfolding insert_all
  lookup-puts_ne id j bytes es m h none_there = ground (
    arith,
    lookup-insert_all_none (key_in c j) es (insert (key_in c id) bytes m) none_there,
    lookup-insert (key_in c j) (key_in c id) bytes m,
    beq_iff (key_in c id) (key_in c j),
    key_in-ne id j h,
  )

  get-write_ne :
      (s : Store) (id j : Bytes) (old new : Document) (ops : Map Bytes × List Bytes)
      → id ≢ j
      → Replaced kv codec c id old new ops
      → get kv codec c (write_batch ops.0 ops.1 s).1 j ≡ get kv codec c s j
  get-write_ne s id j old new ops h made = get-same s (write_batch ops.0 ops.1 s).1 j (
      rw laws.content-write_batch (
        rw made.puts (
          lookup-puts_ne id j made.bytes made.new_entries
            (remove_all (keys made.old_entries) (content s)) h
            (lookup-entries kv laws codec reads c named j new made.new_entries made.indexed_new)
          ∙ lookup-remove_all_ne (key_in c j) (keys made.old_entries) (content s) (
              any-keys (key_in c j) made.old_entries (
                lookup-entries kv laws codec reads c named j old made.old_entries
                  made.indexed_old)))))

  -- Over a store that keeps the contract of `KvStore`, a codec that reads back what it wrote
  -- and a collection whose names have no separator: a creation that succeeds leaves what a read
  -- of any other id returns.
  pub get-create_other :
      (s : Store) (id j : Bytes) (doc : Document) (r : RecordId)
      → id ≢ j
      → (create_inner kv codec c id doc s).0 ≡ ok r
      → get kv codec c (create_inner kv codec c id doc s).1 j ≡ get kv codec c s j
  unfolding create_inner
  get-create_other s id j doc r ne h =
      let (ops, plan, reply, left) =
        then_write-ok kv laws codec reads c named (create_ops kv codec c s id doc) put_batch
          (λ _. doc.id) s r h in
      let made = create_ops-Created kv codec c s id doc ops plan in
      rw left (
        get-same s (put_batch ops s).1 j (
          rw laws.content-put_batch (
            rw made.puts (
              lookup-puts_ne id j made.bytes made.entries (content s) ne
                (lookup-entries kv laws codec reads c named j doc made.entries made.indexed)))))

  -- Over a store that keeps the contract of `KvStore`, a codec that reads back what it wrote
  -- and a collection whose names have no separator: an update that succeeds leaves what a read
  -- of any other id returns.
  pub get-update_other :
      (s : Store) (id j : Bytes) (fields : Map Value)
      → id ≢ j
      → (update kv codec c id fields s).0 ≡ ok tt
      → get kv codec c (update kv codec c id fields s).1 j ≡ get kv codec c s j
  unfolding update
  get-update_other s id j fields ne h =
      let (ops, plan, reply, left) =
        then_write-ok kv laws codec reads c named (update_ops kv codec c s id fields)
          (replace kv codec c) (λ _. tt) s tt h in
      let made = update_ops-Changed kv codec c s id fields ops plan in
      rw left (
        get-write_ne s id j made.old (replaced_fields kv codec c fields made.old) ops ne
          made.replaced)

  -- Over a store that keeps the contract of `KvStore`, a codec that reads back what it wrote
  -- and a collection whose names have no separator: a merge that succeeds leaves what a read of
  -- any other id returns.
  pub get-merge_other :
      (s : Store) (id j : Bytes) (fields : Map Value)
      → id ≢ j
      → (merge kv codec c id fields s).0 ≡ ok tt
      → get kv codec c (merge kv codec c id fields s).1 j ≡ get kv codec c s j
  unfolding merge
  get-merge_other s id j fields ne h =
      let (ops, plan, reply, left) =
        then_write-ok kv laws codec reads c named (merge_ops kv codec c s id fields)
          (replace kv codec c) (λ _. tt) s tt h in
      let made = merge_ops-Changed kv codec c s id fields ops plan in
      rw left (
        get-write_ne s id j made.old (merged_fields kv codec c fields made.old) ops ne
          made.replaced)

  delete_keys_lem :
      (s : Store) (id : Bytes) (ks : List Bytes)
      → delete_keys kv codec c s id ≡ ok (some ks)
      → (doc : Document) × (es : Map Bytes) × (get kv codec c s id ≡ ok (some doc))
        × (entries_in c doc ≡ ok es)
        × (ks ≡ key_in c id ∷ keys es)
  unfolding delete_keys
  delete_keys_lem s id ks h = elim (Result-cases (get kv codec c s id)) [
    | inr (x, a) ↦ absurd (ground arith)
    | inl (found, a) ↦ elim (Option-cases found) [
      | inl b ↦ absurd (ground arith)
      | inr (doc, b) ↦ elim (Result-cases (entries_in c doc)) [
        | inr (x, d) ↦ absurd (ground arith)
        | inl (es, d) ↦ (doc, es, ground arith, d, ground arith)
      ]
    ]
  ]

  deleted :
      (s : Store) (id : Bytes)
      → (delete kv codec c id s).0 ≡ ok true
      → (ks : List Bytes) × (delete_keys kv codec c s id ≡ ok (some ks))
        × ((delete kv codec c id s).1 ≡ (delete_batch ks s).1)
  unfolding delete
  deleted s id h = elim (Result-cases (delete_keys kv codec c s id)) [
    | inr (x, a) ↦ absurd (ground arith)
    | inl (found, a) ↦ elim (Option-cases found) [
      | inl b ↦ absurd (ground arith)
      | inr (ks, b) ↦ (ks, ground arith, ground arith)
    ]
  ]

  -- Over a store that keeps the contract of `KvStore`, a codec that reads back what it wrote
  -- and a collection whose names have no separator: where a deletion answers true, a read found
  -- the record before and finds none after, and a read of any other id returns what it did.
  pub get-delete :
      (s : Store) (id j : Bytes)
      → id ≢ j
      → (delete kv codec c id s).0 ≡ ok true
      → ((doc : Document) × (get kv codec c s id ≡ ok (some doc)))
        × (get kv codec c (delete kv codec c id s).1 id ≡ ok none)
        × (get kv codec c (delete kv codec c id s).1 j ≡ get kv codec c s j)
  get-delete s id j ne h =
      let (ks, plan, left) = deleted s id h in
      let (doc, es, there, indexed, keys_deleted) = delete_keys_lem s id ks plan in
      let k = key_in c id in
      let none_there = lookup-entries kv laws codec reads c named j doc es indexed in
      (
        (doc, there),
        rw left (
            rw keys_deleted (
              get-none kv laws codec reads c named (delete_batch (k ∷ keys es) s).1 id (
                rw laws.content-delete_batch (
                  unfold remove_all in
                  lookup-remove_all k (keys es) (remove k (content s))
                    (lookup-remove k k (content s) ∙ ground (arith, beq_iff k k)))))),
        rw left (
            rw keys_deleted (
              get-same s (delete_batch (k ∷ keys es) s).1 j (
                rw laws.content-delete_batch (
                  lookup-remove_all_ne (key_in c j) (k ∷ keys es) (content s) (
                    ground (
                      arith,
                      beq_iff k (key_in c j),
                      key_in-ne id j ne,
                      any-keys (key_in c j) es none_there,
                    )))))),
      )
