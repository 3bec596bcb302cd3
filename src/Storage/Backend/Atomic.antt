-- ===== src/Storage/Backend/Atomic.antt =====
-- The writes of `RedbBackend` (crates/storage/src/backend.rs) over a redb that may fail at any call.
use dllb.Common.{List, [], ◌∷◌, Bytes, ◌≡◌, refl, inl, inr, arith}
use dllb.Common.Map.{Map, insert, remove, insert_all, remove_all}
use dllb.Core.{Error, storage, external, Result, ok, err, ◌>>=◌, Result-cases, Attempt-cases}
use dllb.Storage.Redb.{Redb, IsRedb, map_err}
use dllb.Storage.Backend.{
  finish, stage, transact, insert_each, remove_each, put, delete, put_batch, delete_batch,
  write_batch,
}

module _ (r : Redb) (laws : IsRedb r) where
  open r use {Database, WriteTxn, WriteTable}
  open laws use {committed, pending, staged}

  -- A write that was to take the content `old` to `new` either reports success and took place whole,
  -- or reports an error and took place whole or left the content alone.
  pub data IsAtomic (old new : Map Bytes) (out : Result (Unit {0}) × Database) : Type 0 where
    applied : out.0 ≡ ok tt → committed out.1 ≡ new → IsAtomic old new out
    kept : (e : Error) → out.0 ≡ err e → committed out.1 ≡ old → IsAtomic old new out
    unknown : (e : Error) → out.0 ≡ err e → committed out.1 ≡ new → IsAtomic old new out

  pub committed-IsAtomic :
      (old new : Map Bytes) (out : Result (Unit {0}) × Database)
      → IsAtomic old new out
      → out.0 ≡ ok tt
      → committed out.1 ≡ new
  committed-IsAtomic old new out (applied e c) h = c
  committed-IsAtomic old new out (kept x e c) h = absurd (ground arith)
  committed-IsAtomic old new out (unknown x e c) h = c

  finish-IsAtomic :
      (d : Database) (txn : WriteTxn) → IsAtomic (committed d) (staged txn) (finish r (ok txn) d)
  unfolding finish
  finish-IsAtomic d txn = elim (Attempt-cases (r.commit txn d).0) [
    | inl (x, e) ↦ applied (ground arith) (laws.commit_done txn d e)
    | inr (text, e) ↦ elim (laws.commit_failed txn d text e) [
      | inl c ↦ kept (storage (external text)) (ground arith) c
      | inr c ↦ unknown (storage (external text)) (ground arith) c
    ]
  ]

  -- What a body does to the rows of its table.
  abbrev Changes : (WriteTable → Result WriteTable) → (Map Bytes → Map Bytes) → Type 0
  Changes body change = (t w : WriteTable) → body t ≡ ok w → pending w ≡ change (pending t)

  staged-stage :
      (body : WriteTable → Result WriteTable) (change : Map Bytes → Map Bytes)
      → Changes body change
      → (d : Database) (txn : WriteTxn) → stage r body d ≡ ok txn
      → staged txn ≡ change (committed d)
  unfolding stage
  staged-stage body change h d txn e = elim (Attempt-cases (r.begin_write d)) [
    | inr (text, f) ↦ absurd (ground arith)
    | inl (t, f) ↦ elim (Attempt-cases (r.open_write t)) [
      | inr (text, g) ↦ absurd (ground arith)
      | inl (u, g) ↦ elim (Result-cases (body u)) [
        | inr (x, b) ↦ absurd (ground arith)
        | inl (w, b) ↦ ground (
          arith,
          laws.begin_write_lem d t f,
          laws.open_write_lem t u g,
          h u w b,
          laws.close_lem w,
        )
      ]
    ]
  ]

  transact-IsAtomic :
      (body : WriteTable → Result WriteTable) (change : Map Bytes → Map Bytes)
      → Changes body change
      → (d : Database) → IsAtomic (committed d) (change (committed d)) (transact r body d)
  unfolding transact
  transact-IsAtomic body change h d = elim (Result-cases (stage r body d)) [
    | inl (txn, e) ↦ rw e (rw (← staged-stage body change h d txn e) (finish-IsAtomic d txn))
    | inr (x, e) ↦ rw e (kept x (unfold finish in refl) (unfold finish in refl))
  ]

  insert_each-Changes : (ops : Map Bytes) → Changes (insert_each r ops) (insert_all ops)
  unfolding insert_each insert_all
  insert_each-Changes [] t w e = ground arith
  insert_each-Changes ((k, v) ∷ ops) t w e = elim (Attempt-cases (r.insert_row t k v)) [
    | inl (u, f) ↦ ground (arith, laws.insert_lem t u k v f, insert_each-Changes ops u w)
    | inr (text, f) ↦ absurd (ground arith)
  ]

  remove_each-Changes : (ks : List Bytes) → Changes (remove_each r ks) (remove_all ks)
  unfolding remove_each remove_all
  remove_each-Changes [] t w e = ground arith
  remove_each-Changes (k ∷ ks) t w e = elim (Attempt-cases (r.remove_row t k)) [
    | inl (u, f) ↦ ground (arith, laws.remove_lem t u k f, remove_each-Changes ks u w)
    | inr (text, f) ↦ absurd (ground arith)
  ]

  -- Whichever call of redb fails, a write that reports success took place whole, and one that
  -- reports an error took place whole or not at all: `put` inserts, `delete` removes,
  -- `put_batch` inserts in order, `delete_batch` removes, and `write_batch` removes first and
  -- then inserts.
  pub writes-IsAtomic :
      (d : Database) (k v : Bytes) (puts : Map Bytes) (ks : List Bytes)
      → IsAtomic (committed d) (insert k v (committed d)) (put r k v d)
        × IsAtomic (committed d) (remove k (committed d)) (delete r k d)
        × IsAtomic (committed d) (insert_all puts (committed d)) (put_batch r puts d)
        × IsAtomic (committed d) (remove_all ks (committed d)) (delete_batch r ks d)
        × IsAtomic
            (committed d)
            (insert_all puts (remove_all ks (committed d)))
            (write_batch r puts ks d)
  unfolding put delete put_batch delete_batch write_batch
  writes-IsAtomic d k v puts ks = (
    transact-IsAtomic (λ t. map_err (r.insert_row t k v)) (insert k v)
        (λ t w e. elim (Attempt-cases (r.insert_row t k v)) [
          | inl (u, f) ↦ ground (arith, laws.insert_lem t u k v f)
          | inr (text, f) ↦ absurd (ground arith)
        ])
        d,
    transact-IsAtomic (λ t. map_err (r.remove_row t k)) (remove k)
        (λ t w e. elim (Attempt-cases (r.remove_row t k)) [
          | inl (u, f) ↦ ground (arith, laws.remove_lem t u k f)
          | inr (text, f) ↦ absurd (ground arith)
        ])
        d,
    transact-IsAtomic (insert_each r puts) (insert_all puts) (insert_each-Changes puts) d,
    transact-IsAtomic (remove_each r ks) (remove_all ks) (remove_each-Changes ks) d,
    transact-IsAtomic (λ t. remove_each r ks t >>= λ u. insert_each r puts u)
        (λ m. insert_all puts (remove_all ks m))
        (λ t w e. elim (Result-cases (remove_each r ks t)) [
          | inl (u, f) ↦ ground (arith, remove_each-Changes ks t u f, insert_each-Changes puts u w)
          | inr (x, f) ↦ absurd (ground arith)
        ])
        d,
  )
