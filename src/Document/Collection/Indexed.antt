-- ===== src/Document/Collection/Indexed.antt =====
-- A created document is found by its indexes (crates/document/src/collection.rs).
use dllb.Common.{
  ◌<◌, List, [], ◌∷◌, ◌++◌, Bytes, true, none, some, ◌≡◌, refl, arith, inl, inr, ◌⊎◌, beq, beq_iff,
  beq_refl, All, length, Member, Option-cases, Bool-cases, List-cases,
}
use dllb.Common.Map.{Map, lookup, insert, insert_all, lookup-insert, lookup-insert_all_none}
use dllb.Common.Utf8.{is_utf8}
use dllb.Core.{Value, RecordId, ok, Result-cases}
use dllb.Storage.Key.{index_prefix}
use dllb.Storage.Key.PrefixEnd.{IsBytes}
use dllb.Storage.Kv.{KvStore, IsKvStore}
use dllb.Document.Record.{Document}
use dllb.Document.Encoding.{encode_composite_key_part}
use dllb.Document.Index.{
  IndexDefinition, is_btree, indexed_value, collect_fields, collect_index_values, entry_of,
  index_entries, build_index_entries, find_ids,
}
use dllb.Document.Index.Exact.{find_ids_exact}
use dllb.Document.Serde.{FieldsCodec, IsCodec}
use dllb.Document.Collection.{Collection, key_in, create_ops, create_inner}
use dllb.Document.Collection.Plans.{create_ops-Created}
use dllb.Document.Collection.ReadBack.{then_write-ok, IsNamed}

-- index entries have no value
abbrev NoValues : Map Bytes → Type 0
NoValues = All (λ (e : Bytes × Bytes). e.1 ≡ [])

lookup-NoValues :
    (k : Bytes) (es : Map Bytes) (w : Bytes)
    → NoValues es
    → lookup k es ≡ some w
    → lookup k es ≡ some []
lookup-NoValues k [] w h e = absurd (ground arith)
lookup-NoValues k ((j, v) ∷ es) w h e = ground (arith, lookup-NoValues k es w h.1)

lookup-insert_all-NoValues :
    (k : Bytes) (es m : Map Bytes)
    → NoValues es
    → lookup k es ≡ some []
    → lookup k (insert_all es m) ≡ some []
unfolding insert_all
lookup-insert_all-NoValues k [] m h e = absurd (ground arith)
lookup-insert_all-NoValues k ((j, v) ∷ es) m h e = elim (Option-cases (lookup k es)) [
  | inl f ↦ ground (arith, lookup-insert_all_none k es (insert j v m) f, lookup-insert k j v m)
  | inr (w, f) ↦ lookup-insert_all-NoValues k es (insert j v m) h.1 (lookup-NoValues k es w h.1 f)
]

lookup-append_some :
    (k v : Bytes) (a b : Map Bytes) → lookup k a ≡ some v → lookup k (a ++ b) ≡ some v
lookup-append_some k v [] b h = absurd (ground arith)
lookup-append_some k v ((j, w) ∷ a) b h = ground (arith, lookup-append_some k v a b)

Member-lookup : (k v : Bytes) (m : Map Bytes) → lookup k m ≡ some v → Member (k, v) m
Member-lookup k v [] h = absurd (ground arith)
Member-lookup k v ((j, w) ∷ m) h = elim (Bool-cases (beq j k)) [
  | inl t ↦
      let same = (beq_iff j k).0 t in
      let value : w ≡ v = ground arith in inl (rw same (rw value refl))
  | inr f ↦ inr (Member-lookup k v m (ground arith))
]

module _ (ns db table : Bytes) (doc : Document) where
  -- one index makes one entry at most
  index_entries_lem :
      (idx : IndexDefinition) (es : Map Bytes)
      → index_entries ns db table doc idx ≡ ok es
      → (es ≡ []) ⊎ ((k : Bytes) × (es ≡ (k, []) ∷ []))
  unfolding index_entries entry_of
  index_entries_lem idx es h = elim (Bool-cases (is_btree idx.kind)) [
    | inr f ↦ inl (ground arith)
    | inl t ↦ elim (List-cases idx.fields) [
      | inl f ↦ absurd (ground arith)
      | inr (x, rest, f) ↦ elim (Option-cases (collect_index_values doc idx)) [
        | inl e ↦ inl (ground arith)
        | inr (values, e) ↦ elim (Result-cases (encode_composite_key_part values)) [
          | inr (x, g) ↦ absurd (ground arith)
          | inl (part, g) ↦
              inr (index_prefix ns db table idx.name ++ (part ++ doc.id.id), ground arith)
        ]
      ]
    ]
  ]

  build_index_entries-NoValues :
      (indexes : List IndexDefinition) (es : Map Bytes)
      → build_index_entries ns db table doc indexes ≡ ok es
      → NoValues es
  unfolding build_index_entries
  build_index_entries-NoValues [] es h = elim (List-cases es) [
    | inl f ↦ rw f tt
    | inr (x, rest, f) ↦ absurd (ground arith)
  ]
  build_index_entries-NoValues (idx ∷ indexes) es h =
      elim (Result-cases (index_entries ns db table doc idx)) [
        | inr (x, e) ↦ absurd (ground arith)
        | inl (first, e) ↦ elim (Result-cases (build_index_entries ns db table doc indexes)) [
          | inr (x, f) ↦ absurd (ground arith)
          | inl (others, f) ↦
              let whole : first ++ others ≡ es = ground arith in
              let later = build_index_entries-NoValues indexes others f in
              elim (index_entries_lem idx first e) [
                | inl g ↦ rw (← whole) (rw g later)
                | inr (k, g) ↦ rw (← whole) (rw g (refl, later))
              ]
        ]
      ]

  module _ (values : List Value) (part : Bytes)
      (encoded : encode_composite_key_part values ≡ ok part) where
    lookup-index_entries :
        (idx : IndexDefinition) (es : Map Bytes)
        → is_btree idx.kind ≡ true
        → collect_index_values doc idx ≡ some values
        → 0 < length idx.fields
        → index_entries ns db table doc idx ≡ ok es
        → lookup (index_prefix ns db table idx.name ++ (part ++ doc.id.id)) es ≡ some []
    unfolding index_entries entry_of
    lookup-index_entries idx es b v n h = elim (List-cases idx.fields) [
      | inl f ↦ absurd (ground arith)
      | inr (x, rest, f) ↦
          ground (arith, beq_refl (index_prefix ns db table idx.name ++ (part ++ doc.id.id)))
    ]

    lookup-built :
        (indexes : List IndexDefinition) (idx : IndexDefinition) (es : Map Bytes)
        → Member idx indexes
        → is_btree idx.kind ≡ true
        → collect_index_values doc idx ≡ some values
        → 0 < length idx.fields
        → build_index_entries ns db table doc indexes ≡ ok es
        → lookup (index_prefix ns db table idx.name ++ (part ++ doc.id.id)) es ≡ some []
    unfolding build_index_entries
    lookup-built [] idx es m b v n h = absurd m
    lookup-built (first ∷ indexes) idx es m b v n h =
        let k = index_prefix ns db table idx.name ++ (part ++ doc.id.id) in
        elim (Result-cases (index_entries ns db table doc first)) [
          | inr (x, e) ↦ absurd (ground arith)
          | inl (here, e) ↦ elim (Result-cases (build_index_entries ns db table doc indexes)) [
            | inr (x, f) ↦ absurd (ground arith)
            | inl (others, f) ↦
                let whole : here ++ others ≡ es = ground arith in
                elim m [
                  | inl same ↦ rw (← whole) (
                      lookup-append_some k [] here others
                        (lookup-index_entries idx here b v n (rw same e)))
                  | inr later ↦
                      let there = lookup-built indexes idx others later b v n f in
                      elim (index_entries_lem first here e) [
                        | inl g ↦ rw (← whole) (rw g there)
                        | inr (j, g) ↦ rw (← whole) (rw g (ground arith))
                      ]
                ]
          ]
        ]

collect_fields-length :
    (fields : Map Value) (fs : List Bytes) (values : List Value)
    → collect_fields fields fs ≡ some values
    → length values ≡ length fs
unfolding collect_fields
collect_fields-length fields [] values h = ground arith
collect_fields-length fields (f ∷ fs) values h =
    elim (Option-cases (indexed_value (lookup f fields))) [
      | inl e ↦ absurd (ground arith)
      | inr (v, e) ↦ elim (Option-cases (collect_fields fields fs)) [
        | inl g ↦ absurd (ground arith)
        | inr (vs, g) ↦ ground (arith, collect_fields-length fields fs vs g)
      ]
    ]

collect_index_values-length :
    (doc : Document) (idx : IndexDefinition) (values : List Value)
    → collect_index_values doc idx ≡ some values
    → (0 < length idx.fields) × (length values ≡ length idx.fields)
unfolding collect_index_values
collect_index_values-length doc idx values h = elim (List-cases idx.fields) [
  | inl e ↦ absurd (ground arith)
  | inr (f, fs, e) ↦ ground (arith, collect_fields-length doc.fields (f ∷ fs) values)
]

module _ (kv : KvStore) (laws : IsKvStore kv) (codec : FieldsCodec) (reads : IsCodec codec)
    (c : Collection) (named : IsNamed c) where
  open kv use {Store, put_batch}
  open laws use {content}

  -- Over a store that keeps the contract of `KvStore`, a codec that reads back what it wrote
  -- and a collection whose names have no separator: where a creation succeeds, a B-tree index
  -- of the collection has all its values in the document, and the key of the document's entry
  -- is of bytes with the document's id in UTF-8, the lookup of these values in the store after
  -- the creation returns, and its answer holds the document's id.
  pub find_ids-create_inner :
      (s : Store) (id : Bytes) (doc : Document) (r : RecordId) (idx : IndexDefinition)
      (values : List Value) (part : Bytes)
      → (create_inner kv codec c id doc s).0 ≡ ok r
      → Member idx c.indexes
      → is_btree idx.kind ≡ true
      → collect_index_values doc idx ≡ some values
      → encode_composite_key_part values ≡ ok part
      → IsBytes (index_prefix c.ns c.db c.table idx.name ++ (part ++ doc.id.id))
      → is_utf8 doc.id.id ≡ true
      → (ids : List Bytes) × (find_ids kv c.ns c.db c.table
            (create_inner kv codec c id doc s).1
            idx.name
            values
            none
            none
            (length idx.fields)
          ≡ ok ids)
        × Member doc.id.id ids
  unfolding create_inner
  find_ids-create_inner s id doc r idx values part h m b v encoded bytes utf8 =
      let (ops, plan, reply, left) =
        then_write-ok kv laws codec reads c named (create_ops kv codec c s id doc) put_batch
          (λ _. doc.id) s r h in
      let made = create_ops-Created kv codec c s id doc ops plan in
      let (some_fields, same_length) = collect_index_values-length doc idx values v in
      let k = index_prefix c.ns c.db c.table idx.name ++ (part ++ doc.id.id) in
      let there =
        lookup-built c.ns c.db c.table doc values part encoded c.indexes idx made.entries m b v
          some_fields made.indexed in
      let no_values =
        build_index_entries-NoValues c.ns c.db c.table doc c.indexes made.entries made.indexed in
      rw left (
        rw (← same_length) (
          find_ids_exact kv laws c.ns c.db c.table idx.name (put_batch ops s).1 values part
            doc.id.id [] encoded (omega arith)
            (rw laws.content-put_batch (
              rw made.puts (
                Member-lookup k [] _ (
                  unfold insert_all in
                  lookup-insert_all-NoValues k made.entries
                    (insert (key_in c id) made.bytes (content s)) no_values there))))
            bytes utf8))
