-- ===== src/Document/Collection/Unique.antt =====
-- Unique indexes in the operations of crates/document/src/collection.rs: creation enforces
-- them.
use dllb.Common.{
  List, [], ◌∷◌, Bytes, true, none, some, ◌≡◌, arith, inl, inr, beq, beq_iff, All, length, Member,
  Bool-cases,
}
use dllb.Core.{Value, RecordId, ok, >>-iff, Result-cases}
use dllb.Storage.Kv.{KvStore}
use dllb.Document.Record.{Document}
use dllb.Document.Index.{
  IndexDefinition, collect_index_values, find_ids, check_unique_constraint, other_id,
}
use dllb.Document.Serde.{FieldsCodec}
use dllb.Document.Collection.{Collection, check_unique, check_all_unique, create_ops, create_inner}
use dllb.Document.Collection.Plans.{create_ops-Created}

other_id-ok :
    (name id : Bytes) (ids : List Bytes) → other_id name id ids ≡ ok tt → All (λ i. i ≡ id) ids
unfolding other_id
other_id-ok name id [] h = tt
other_id-ok name id (i ∷ ids) h = elim (Bool-cases (beq i id)) [
  | inl t ↦ ((beq_iff i id).0 t, other_id-ok name id ids (rw (t, other_id) at h))
  | inr f ↦ absurd (ground arith)
]

module _ (kv : KvStore) (codec : FieldsCodec) (c : Collection) where
  check_all_unique-ok :
      (s : kv.Store) (id : Bytes) (doc : Document) (indexes : List IndexDefinition)
      (idx : IndexDefinition)
      → check_all_unique kv codec c s id doc indexes ≡ ok tt
      → Member idx indexes
      → check_unique kv codec c s id doc idx ≡ ok tt
  unfolding check_all_unique
  check_all_unique-ok s id doc [] idx h m = absurd m
  check_all_unique-ok s id doc (first ∷ indexes) idx h m =
      let (a, b) =
        (>>-iff (check_unique kv codec c s id doc first)
            (check_all_unique kv codec c s id doc indexes)).0
          h in
      elim m [ inl e ↦ rw e a | inr later ↦ check_all_unique-ok s id doc indexes idx b later ]

  -- Over any store: where a creation succeeds, an index of the collection is unique and the
  -- document has all its values, the lookup of these values in the store before the creation
  -- returned ids, and none of them is another record's.
  pub create_inner-IsUnique :
      (s : kv.Store) (id : Bytes) (doc : Document) (r : RecordId) (idx : IndexDefinition)
      (values : List Value)
      → (create_inner kv codec c id doc s).0 ≡ ok r
      → Member idx c.indexes
      → idx.unique ≡ true
      → collect_index_values doc idx ≡ some values
      → (ids : List Bytes) × (find_ids kv c.ns c.db c.table s idx.name values none none
            (length idx.fields)
          ≡ ok ids)
        × All (λ i. i ≡ id) ids
  unfolding create_inner check_unique check_unique_constraint
  create_inner-IsUnique s id doc r idx values h m u v =
      elim (Result-cases (create_ops kv codec c s id doc)) [
        | inr (x, e) ↦ absurd (ground arith)
        | inl (ops, e) ↦
            let made = create_ops-Created kv codec c s id doc ops e in
            let passed = check_all_unique-ok s id doc c.indexes idx made.unique m in
            elim (Result-cases
              (find_ids kv c.ns c.db c.table s idx.name values none none (length idx.fields))) [
                | inr (x, f) ↦ absurd (ground arith)
                | inl (ids, f) ↦ (ids, f, other_id-ok idx.name id ids (ground arith))
              ]
      ]
