-- ===== src/Examples/Documents.antt =====
-- The operations of a collection on a store in memory.
use dllb.Common.{
  Member, List, [], ◌∷◌, Bytes, true, false, none, some, ◌≡◌, ◌≢◌, refl, arith, inl, All,
}
use dllb.Common.Map.{Map, insert_all, remove_all}
use dllb.Core.{Value, ok, err, other, record_exists}
use dllb.Storage.Kv
use dllb.Storage.Backend
use dllb.Storage.Key
use dllb.Common.Map
use dllb.Document.Index
use dllb.Document.Encoding.{encode_composite_key_part}
use dllb.Document.Serde.{serialize, deserialize}
use dllb.Storage.Key.PrefixEnd.{prefix_end}
use dllb.Storage.Kv.{KvStore}
use dllb.Document.Record.{Document}
use dllb.Document.Index.{IndexDefinition, btree, find_ids}
use dllb.Document.Collection.{
  upsert, upsert_by, Collection, validate, create_ops, check_all_unique, check_unique, create_inner,
  get_existing, replace_ops, get, update, update_ops, merge, merge_ops, delete, delete_keys, id_in,
}
use dllb.Document.Collection.ReadBack.{
  IsNamed, get-create_inner, get-update, get-merge, create_inner-existing,
}
use dllb.Document.Collection.Frame.{get-create_other, get-update_other, get-delete}
use dllb.Document.Collection.Unique.{create_inner-IsUnique}
use dllb.Document.Collection.Whole.{IsWhole, without, was_there, operations-IsWhole}
use dllb.Common.Utf8.{is_utf8}
use dllb.Document.Collection.Indexed.{find_ids-create_inner}
use dllb.Document.Collection.Upsert.{Upserted, get-upsert}
use dllb.Examples.Memory.{memory, memory-IsRedb, memory_store, memory_laws}
use dllb.Examples.Codec.{small_codec, small_codec-IsCodec}

abbrev n_field : Bytes
n_field = b'n' ∷ []

abbrev by_n : IndexDefinition
by_n = record { name = b'b' ∷ []; fields = n_field ∷ []; unique = true; kind = btree }

abbrev people : Collection
people = record {
  ns = b'n' ∷ b's' ∷ [];
  db = b'd' ∷ [];
  table = b'u' ∷ [];
  table_schema = none;
  indexes = by_n ∷ [];
}

people-IsNamed : IsNamed people
people-IsNamed = record { scope = (refl, refl, refl); names = (refl, tt) }

abbrev alice : Bytes
alice = b'a' ∷ []

abbrev bob : Bytes
bob = b'b' ∷ []

abbrev named : Bytes → Map Value
named s = (n_field, Value.string s) ∷ []

abbrev alice_doc : Document
alice_doc = record { id = id_in people alice; fields = named (b'A' ∷ []) }

abbrev with_alice : Map Bytes
with_alice = (create_inner memory_store small_codec people alice alice_doc []).1

abbrev store : KvStore
store = memory_store

-- create `alice`, then update, merge and delete
documents_test :
    ((create_inner store small_codec people alice alice_doc []).0 ≡ ok (id_in people alice))
    × ((update store small_codec people alice (named (b'B' ∷ [])) with_alice).0 ≡ ok tt)
    × ((merge store small_codec people alice (named (b'C' ∷ [])) with_alice).0 ≡ ok tt)
    × ((delete store small_codec people alice with_alice).0 ≡ ok true)
    × (get store small_codec people with_alice alice ≡ ok (some alice_doc))
    × (get store small_codec people with_alice bob ≡ ok none)
    × ((upsert store small_codec people alice alice_doc (named bob) with_alice).0
        ≡ ok (id_in people alice, false))
unfolding upsert upsert_by create_inner create_ops validate check_all_unique check_unique
    Index.check_unique_constraint Index.find_ids Index.scan_start Index.scan_end Index.scan_ids
    Index.ids_of_entries Index.other_id Kv.contains serialize deserialize Index.build_index_entries
    Index.index_entries Index.entry_of Index.collect_index_values Index.collect_fields
    Index.indexed_value Index.is_btree encode_composite_key_part Backend.put_batch Backend.transact
    Backend.stage Backend.finish Backend.insert_each Backend.remove_each Backend.write_batch
    Backend.delete_batch Backend.get Backend.scan Backend.collect Backend.read_table Map.insert
    Map.remove Map.range insert_all prefix_end Key.document_key Key.index_prefix update update_ops
    merge merge_ops get_existing replace_ops get delete delete_keys
documents_test = (refl, refl, refl, refl, refl, refl, refl)

other_ids : alice ≢ bob
other_ids e = absurd (ground arith)

get-create_inner_example :
    (id_in people alice ≡ alice_doc.id)
    × (get store small_codec people
          (create_inner store small_codec people alice alice_doc []).1
          alice
        ≡ ok (some alice_doc))
get-create_inner_example =
    get-create_inner memory_store memory_laws small_codec small_codec-IsCodec people people-IsNamed
      [] alice alice_doc (id_in people alice) documents_test.0

get-update_example :
    get store small_codec people
      (update store small_codec people alice (named (b'B' ∷ [])) with_alice).1
      alice
    ≡ ok (some (record { id = id_in people alice; fields = named (b'B' ∷ []) }))
get-update_example =
    get-update memory_store memory_laws small_codec small_codec-IsCodec people people-IsNamed
      with_alice alice (named (b'B' ∷ [])) documents_test.1

get-merge_example :
    (old : Document) × (get store small_codec people with_alice alice ≡ ok (some old))
    × (get store small_codec people
          (merge store small_codec people alice (named (b'C' ∷ [])) with_alice).1
          alice
        ≡ ok (
            some (record {
              id = id_in people alice;
              fields = insert_all (named (b'C' ∷ [])) old.fields;
            })))
get-merge_example =
    get-merge memory_store memory_laws small_codec small_codec-IsCodec people people-IsNamed
      with_alice alice (named (b'C' ∷ [])) documents_test.2

get-create_other_example :
    get store small_codec people (create_inner store small_codec people alice alice_doc []).1 bob
    ≡ get store small_codec people [] bob
get-create_other_example =
    get-create_other memory_store memory_laws small_codec small_codec-IsCodec people people-IsNamed
      [] alice bob alice_doc (id_in people alice) other_ids documents_test.0

get-update_other_example :
    get store small_codec people
      (update store small_codec people alice (named (b'B' ∷ [])) with_alice).1
      bob
    ≡ get store small_codec people with_alice bob
get-update_other_example =
    get-update_other memory_store memory_laws small_codec small_codec-IsCodec people people-IsNamed
      with_alice alice bob (named (b'B' ∷ [])) other_ids documents_test.1

get-delete_example :
    ((doc : Document) × (get store small_codec people with_alice alice ≡ ok (some doc)))
    × (get store small_codec people (delete store small_codec people alice with_alice).1 alice
        ≡ ok none)
    × (get store small_codec people (delete store small_codec people alice with_alice).1 bob
        ≡ get store small_codec people with_alice bob)
get-delete_example =
    get-delete memory_store memory_laws small_codec small_codec-IsCodec people people-IsNamed
      with_alice alice bob other_ids documents_test.3

create_inner-existing_example :
    create_inner store small_codec people alice alice_doc with_alice
    ≡ (err (other (record_exists alice)), with_alice)
create_inner-existing_example =
    create_inner-existing memory_store memory_laws small_codec small_codec-IsCodec people
      people-IsNamed with_alice alice alice_doc alice_doc documents_test.4 (unfold validate in refl)

create_inner-IsUnique_example :
    (ids : List Bytes) × (find_ids store people.ns people.db people.table []
        (b'b' ∷ [])
        (Value.string (b'A' ∷ []) ∷ [])
        none
        none
        1
      ≡ ok ids)
    × All (λ i. i ≡ alice) ids
create_inner-IsUnique_example =
    create_inner-IsUnique memory_store small_codec people [] alice alice_doc (id_in people alice)
      by_n (Value.string (b'A' ∷ []) ∷ []) documents_test.0 (inl refl) refl
      (unfold Index.collect_index_values in unfold Index.collect_fields in refl)

abbrev bob_doc : Document
bob_doc = record { id = id_in people bob; fields = named (b'B' ∷ []) }

abbrev with_both : Map Bytes
with_both = (create_inner store small_codec people bob bob_doc with_alice).1

-- `by_n` is unique, and an update takes the value of another record all the same.
unique_test :
    ((update store small_codec people bob (named (b'A' ∷ [])) with_both).0 ≡ ok tt)
    × (find_ids store people.ns people.db people.table
          (update store small_codec people bob (named (b'A' ∷ [])) with_both).1
          (b'b' ∷ [])
          (Value.string (b'A' ∷ []) ∷ [])
          none
          none
          1
        ≡ ok (alice ∷ bob ∷ []))
unfolding upsert upsert_by create_inner create_ops validate check_all_unique check_unique
    Index.check_unique_constraint Index.find_ids Index.scan_start Index.scan_end Index.scan_ids
    Index.ids_of_entries Index.other_id Kv.contains serialize deserialize Index.build_index_entries
    Index.index_entries Index.entry_of Index.collect_index_values Index.collect_fields
    Index.indexed_value Index.is_btree encode_composite_key_part Backend.put_batch Backend.transact
    Backend.stage Backend.finish Backend.insert_each Backend.remove_each Backend.write_batch
    Backend.delete_batch Backend.get Backend.scan Backend.collect Backend.read_table Map.insert
    Map.remove Map.range insert_all prefix_end Key.document_key Key.index_prefix update update_ops
    merge merge_ops get_existing replace_ops get delete delete_keys is_utf8
unique_test = (refl, refl)

operations-IsWhole_example :
    IsWhole memory memory-IsRedb with_alice
      (create_ops store small_codec people with_alice bob bob_doc)
      (λ puts. insert_all puts with_alice)
      (λ _. bob_doc.id)
      (create_inner store small_codec people bob bob_doc with_alice)
    × IsWhole memory memory-IsRedb with_alice
        (update_ops store small_codec people with_alice bob (named bob))
        (λ ops. insert_all ops.0 (remove_all ops.1 with_alice))
        (λ _. tt)
        (update store small_codec people bob (named bob) with_alice)
    × IsWhole memory memory-IsRedb with_alice
        (merge_ops store small_codec people with_alice bob (named bob))
        (λ ops. insert_all ops.0 (remove_all ops.1 with_alice))
        (λ _. tt)
        (merge store small_codec people bob (named bob) with_alice)
    × IsWhole memory memory-IsRedb with_alice
        (delete_keys store small_codec people with_alice bob)
        (without memory memory-IsRedb small_codec people with_alice)
        (was_there memory memory-IsRedb small_codec people)
        (delete store small_codec people bob with_alice)
unfolding memory-IsRedb
operations-IsWhole_example =
    operations-IsWhole memory memory-IsRedb small_codec people with_alice bob bob_doc (named bob)

abbrev part_a : Bytes
part_a = b'A' ∷ 0 ∷ 1 ∷ []

find_ids-create_inner_example :
    (ids : List Bytes) × (find_ids store people.ns people.db people.table
        (create_inner store small_codec people alice alice_doc []).1
        (b'b' ∷ [])
        (Value.string (b'A' ∷ []) ∷ [])
        none
        none
        1
      ≡ ok ids)
    × Member alice ids
unfolding Index.collect_index_values Index.collect_fields Index.indexed_value Index.is_btree
    encode_composite_key_part Key.index_prefix is_utf8
find_ids-create_inner_example =
    find_ids-create_inner memory_store memory_laws small_codec small_codec-IsCodec people
      people-IsNamed [] alice alice_doc (id_in people alice) by_n (Value.string (b'A' ∷ []) ∷ [])
      part_a documents_test.0 (inl refl) refl refl refl (omega arith) refl

get-upsert_example :
    Upserted store small_codec people with_alice
      (upsert store small_codec people alice alice_doc (named bob) with_alice).1
      alice
      alice_doc
      (named bob)
      false
get-upsert_example =
    get-upsert memory_store memory_laws small_codec small_codec-IsCodec people people-IsNamed
      with_alice alice alice_doc (named bob) (id_in people alice) false documents_test.6
