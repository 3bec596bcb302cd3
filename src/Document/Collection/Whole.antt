-- ===== src/Document/Collection/Whole.antt =====
-- The writes of crates/document/src/collection.rs over crates/storage/src/backend.rs, with a redb that
-- may fail at any call.
use dllb.Common.{
  List, [], Bytes, Bool, true, false, Option, none, some, ◌≡◌, ◌⊎◌, refl, inl, inr, arith,
}
use dllb.Common.Map.{Map, insert_all, remove_all}
use dllb.Core.{Value, Error, Result, ok, err, Result-cases}
use dllb.Storage.Kv.{KvStore}
use dllb.Storage.Redb.{Redb, IsRedb}
use dllb.Storage.Backend.{redb_backend}
use dllb.Storage.Backend.Atomic.{IsAtomic, applied, kept, unknown, writes-IsAtomic}
use dllb.Document.Record.{Document}
use dllb.Document.Serde.{FieldsCodec}
use dllb.Document.Collection.{
  Collection, then_write, create_ops, create_inner, update_ops, update, merge_ops, merge, replace,
  delete_keys, delete,
}

module _ (r : Redb) (laws : IsRedb r) where
  open r use {Database}
  open laws use {committed}

  -- An operation that plans its writes first: a plan that fails is the answer and leaves the
  -- database; the writes of a plan are committed all together where the answer is good, and all
  -- together or not at all where it is an error.
  pub data IsWhole {A B : Type 0} (d : Database) (plan : Result A) (after : A → Map Bytes)
      (reply : A → B) (out : Result B × Database) : Type 0 where
    refused : (e : Error) → plan ≡ err e → out ≡ (err e, d) → IsWhole d plan after reply out
    written :
        (a : A)
        → plan ≡ ok a
        → out.0 ≡ ok (reply a)
        → committed out.1 ≡ after a
        → IsWhole d plan after reply out
    failed :
        (a : A) (e : Error)
        → plan ≡ ok a
        → out.0 ≡ err e
        → (committed out.1 ≡ committed d) ⊎ (committed out.1 ≡ after a)
        → IsWhole d plan after reply out

  then_write-IsWhole :
      {A B : Type 0} (d : Database) (plan : Result A)
      (write : A → Database → Result (Unit {0}) × Database) (after : A → Map Bytes) (reply : A → B)
      → ((a : A) → IsAtomic r laws (committed d) (after a) (write a d))
      → IsWhole d plan after reply (then_write plan write reply d)
  then_write-IsWhole d (err e) write after reply h = refused e refl refl
  then_write-IsWhole d (ok a) write after reply h = elim (h a) [
    | applied e c ↦ written a refl (ground arith) c
    | kept x e c ↦ failed a x refl (ground arith) (inl c)
    | unknown x e c ↦ failed a x refl (ground arith) (inr c)
  ]

  module _ (codec : FieldsCodec) (c : Collection) where
    abbrev kv : KvStore
    kv = redb_backend r

    -- what a deletion leaves, and answers
    abbrev pub without : Database → Option (List Bytes) → Map Bytes
    without d none = committed d
    without d (some ks) = remove_all ks (committed d)

    abbrev pub was_there : Option (List Bytes) → Bool
    was_there none = false
    was_there (some _) = true

    delete-IsWhole :
        (d : Database) (id : Bytes)
        → IsWhole d (delete_keys kv codec c d id) (without d) was_there (delete kv codec c id d)
    unfolding delete
    delete-IsWhole d id = elim (Result-cases (delete_keys kv codec c d id)) [
      | inr (e, f) ↦ refused e f (rw (f, delete) refl)
      | inl (none, f) ↦ written none f (rw (f, delete) refl) (rw (f, delete) refl)
      | inl (some ks, f) ↦ elim (writes-IsAtomic r laws d [] [] [] ks).3 [
        | applied e w ↦ written (some ks) f (rw (f, delete) (rw e refl)) (rw (f, delete) w)
        | kept x e w ↦ failed (some ks) x f (rw (f, delete) (rw e refl)) (inl (rw (f, delete) w))
        | unknown x e w ↦ failed (some ks) x f (rw (f, delete) (rw e refl)) (inr (rw (f, delete) w))
      ]
    ]

    -- Over the redb backend, whichever calls of redb fail: a creation, an update, a merge and a
    -- deletion plan their writes first, and where this fails answer the error and leave the
    -- database as it was. Where it succeeds, a good answer says that all of the planned puts
    -- and deletes are committed, and an error that all of them are or none.
    pub operations-IsWhole :
        (d : Database) (id : Bytes) (doc : Document) (fields : Map Value)
        → IsWhole d
            (create_ops kv codec c d id doc)
            (λ puts. insert_all puts (committed d))
            (λ _. doc.id)
            (create_inner kv codec c id doc d)
          × IsWhole d
              (update_ops kv codec c d id fields)
              (λ ops. insert_all ops.0 (remove_all ops.1 (committed d)))
              (λ _. tt)
              (update kv codec c id fields d)
          × IsWhole d
              (merge_ops kv codec c d id fields)
              (λ ops. insert_all ops.0 (remove_all ops.1 (committed d)))
              (λ _. tt)
              (merge kv codec c id fields d)
          × IsWhole d (delete_keys kv codec c d id) (without d) was_there (delete kv codec c id d)
    unfolding create_inner update merge
    operations-IsWhole d id doc fields = (
      then_write-IsWhole d (create_ops kv codec c d id doc) kv.put_batch
          (λ puts. insert_all puts (committed d)) (λ _. doc.id)
          (λ puts. (writes-IsAtomic r laws d [] [] puts []).2),
      then_write-IsWhole d (update_ops kv codec c d id fields) (replace kv codec c)
          (λ ops. insert_all ops.0 (remove_all ops.1 (committed d))) (λ _. tt)
          (λ ops. (writes-IsAtomic r laws d [] [] ops.0 ops.1).4),
      then_write-IsWhole d (merge_ops kv codec c d id fields) (replace kv codec c)
          (λ ops. insert_all ops.0 (remove_all ops.1 (committed d))) (λ _. tt)
          (λ ops. (writes-IsAtomic r laws d [] [] ops.0 ops.1).4),
      delete-IsWhole d id,
    )
