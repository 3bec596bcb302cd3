-- ===== src/Graph/Mirror.antt =====
-- The two entries of an edge (crates/graph/src/store.rs), over a store that keeps the contract of
-- `KvStore`.
use dllb.Common.{
  List, [], ◌∷◌, Bytes, true, false, none, some, ◌≡◌, refl, arith, inl, inr, Option-cases,
  Bool-cases,
}
use dllb.Common.Map.{Map, lookup}
use dllb.Core.{Value, ok, Result-cases}
use dllb.Storage.Key.Parse.{IsScope}
use dllb.Storage.Kv.{KvStore, IsKvStore, contains, is_some}
use dllb.Document.Serde.{FieldsCodec, IsCodec}
use dllb.Graph.Edge.{
  Edge, EdgeTable, out_key, in_key, serialize_props, relate, get, delete, update_properties,
}
use dllb.Graph.Entries.{
  IsTriple, IsMirrored, deserialize_props-serialize_props, lookup-relate_out, relate-mirror,
  delete-mirror, lookup-delete, update-mirror,
}

module _ (kv : KvStore) (laws : IsKvStore kv) (codec : FieldsCodec) (t : EdgeTable)
    (scope : IsScope t.ns t.db t.table) where
  open kv use {Store, put, put_batch, delete_batch}
  open laws use {content, get-eq}

  -- Over a store that keeps the contract of `KvStore` and a codec that reads back what it
  -- wrote: where a relate of an edge with parts free of separators succeeds, a read of the edge
  -- then returns it with its properties.
  pub get-relate :
      (reads : IsCodec codec) (s : Store) (e : Edge)
      → IsTriple e.src e.edge_type e.dst
      → (relate kv codec t e s).0 ≡ ok tt
      → get kv codec t (relate kv codec t e s).1 e.src e.edge_type e.dst ≡ ok (some e)
  unfolding relate get
  get-relate reads s e clean h = elim (Result-cases (serialize_props codec e.properties)) [
    | inr (x, f) ↦ absurd (ground arith)
    | inl (props, f) ↦
        let ops : Map Bytes =
          (out_key t e.src e.edge_type e.dst, props)
          ∷ (in_key t e.dst e.edge_type e.src, [])
          ∷ [] in
        ground (
          arith,
          get-eq (put_batch ops s).1 (out_key t e.src e.edge_type e.dst),
          laws.content-put_batch ops s,
          lookup-relate_out t scope e.src e.edge_type e.dst clean (content s) props,
          deserialize_props-serialize_props codec reads e.properties props f,
        )
  ]

  relate-IsMirrored :
      (s : Store) (e : Edge)
      → IsTriple e.src e.edge_type e.dst
      → IsMirrored t (content s)
      → IsMirrored t (content (relate kv codec t e s).1)
  unfolding relate
  relate-IsMirrored s e clean h = elim (Result-cases (serialize_props codec e.properties)) [
    | inr (x, f) ↦ rw (f, relate) h
    | inl (props, f) ↦
        rw (f, relate)
          (rw laws.content-put_batch
            (relate-mirror t scope e.src e.edge_type e.dst clean (content s) props h))
  ]

  delete-IsMirrored :
      (s : Store) (a ty b : Bytes)
      → IsTriple a ty b
      → IsMirrored t (content s)
      → IsMirrored t (content (delete kv codec t a ty b s).1)
  unfolding delete
  delete-IsMirrored s a ty b clean h = elim (Result-cases (contains kv s (out_key t a ty b))) [
    | inr (x, f) ↦ rw (f, delete) h
    | inl (true, f) ↦
        rw (f, delete)
          (rw laws.content-delete_batch (delete-mirror t scope a ty b clean (content s) h))
    | inl (false, f) ↦ rw (f, delete) h
  ]

  contains-eq : (s : Store) (k : Bytes) → contains kv s k ≡ ok (is_some (lookup k (content s)))
  unfolding contains
  contains-eq s k = rw get-eq refl

  update_properties-IsMirrored :
      (s : Store) (a ty b : Bytes) (props : Map Value)
      → IsTriple a ty b
      → IsMirrored t (content s)
      → IsMirrored t (content (update_properties kv codec t a ty b props s).1)
  unfolding update_properties
  update_properties-IsMirrored s a ty b props clean h =
      elim (Result-cases (contains kv s (out_key t a ty b))) [
        | inr (x, f) ↦ rw (f, update_properties) h
        | inl (false, f) ↦ rw (f, update_properties) h
        | inl (true, f) ↦ elim (Result-cases (serialize_props codec props)) [
          | inr (x, g) ↦ rw (f, update_properties) (rw g h)
          | inl (bytes, g) ↦
              rw (f, update_properties)
                (rw g (
                  rw laws.content-put (
                    update-mirror t scope a ty b clean (content s) bytes
                      (ground (arith, contains-eq s (out_key t a ty b))) h)))
        ]
      ]

  -- the writes of an edge store, whatever they answer
  pub data Steps : Store → Store → Type 0 where
    stay : {s : Store} → Steps s s
    then_relate :
        {s u : Store} (e : Edge)
        → IsTriple e.src e.edge_type e.dst
        → Steps s u
        → Steps s (relate kv codec t e u).1
    then_delete :
        {s u : Store} (a ty b : Bytes)
        → IsTriple a ty b
        → Steps s u
        → Steps s (delete kv codec t a ty b u).1
    then_update :
        {s u : Store} (a ty b : Bytes) (props : Map Value)
        → IsTriple a ty b
        → Steps s u
        → Steps s (update_properties kv codec t a ty b props u).1

  -- Over a store that keeps the contract of `KvStore`: where every edge has both of its entries
  -- or none, it stays so after any sequence of relates, deletes and updates of properties,
  -- failed ones included, of edges with parts free of separators.
  pub Steps-IsMirrored :
      (s u : Store) → Steps s u → IsMirrored t (content s) → IsMirrored t (content u)
  Steps-IsMirrored s u stay h = h
  Steps-IsMirrored s u (then_relate {u = w} e clean before) h =
      relate-IsMirrored w e clean (Steps-IsMirrored s w before h)
  Steps-IsMirrored s u (then_delete {u = w} a ty b clean before) h =
      delete-IsMirrored w a ty b clean (Steps-IsMirrored s w before h)
  Steps-IsMirrored s u (then_update {u = w} a ty b props clean before) h =
      update_properties-IsMirrored w a ty b props clean (Steps-IsMirrored s w before h)

  -- Over a store that keeps the contract of `KvStore`, for an edge with parts free of
  -- separators: a delete answers whether the edge was there, and a read after it finds none.
  pub get-delete_edge :
      (s : Store) (a ty b : Bytes)
      → IsTriple a ty b
      → ((delete kv codec t a ty b s).0 ≡ contains kv s (out_key t a ty b))
        × (get kv codec t (delete kv codec t a ty b s).1 a ty b ≡ ok none)
  unfolding delete get
  get-delete_edge s a ty b clean =
      let o = out_key t a ty b in
      let ks : List Bytes = o ∷ in_key t b ty a ∷ [] in
      elim (Bool-cases (is_some (lookup o (content s)))) [
        | inl f ↦ ground (
          arith,
          contains-eq s o,
          laws.delete_batch_returns ks s,
          get-eq (delete_batch ks s).1 o,
          laws.content-delete_batch ks s,
          lookup-delete t scope a ty b clean (content s),
        )
        | inr f ↦ elim (Option-cases (lookup o (content s))) [
          | inl g ↦ ground (arith, contains-eq s o, get-eq s o)
          | inr (v, g) ↦ absurd (ground arith)
        ]
      ]
