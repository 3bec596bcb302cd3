-- ===== src/Storage/Backend/Implements.antt =====
-- `RedbBackend` (crates/storage/src/backend.rs) keeps the contract of `KvStore`, over a redb whose
-- calls do not fail.
use dllb.Common.{ℕ, ◌+◌, List, [], ◌∷◌, Bytes, Option, some, ◌≡◌, refl, ◌∙◌, ap, arith, length}
use dllb.Common.Map.{Map, keys}
use dllb.Core.{Result, ok, ◌>>=◌, Attempt, done}
use dllb.Storage.Key.PrefixEnd.{prefix_end}
use dllb.Storage.Kv.{IsKvStore}
use dllb.Storage.Redb.{Redb, IsRedb, map_err, all_done}
use dllb.Storage.Backend.{
  read_table, transact, get, scan, count_prefix, scan_prefix_keys, get_each, multi_get, insert_each,
  remove_each, put, delete, put_batch, delete_batch, write_batch, redb_backend,
}
use dllb.Storage.Backend.Atomic.{writes-IsAtomic, committed-IsAtomic}
use dllb.Storage.Backend.Reads.{
  loops_done, get_sound, multi_get_sound, scan_sound, count_prefix_sound, scan_prefix_keys_sound,
}

-- redb while the disk works and no other process holds the file
pub record IsUp (r : Redb) : Type 0 where
  pub begin_read_up : (d : r.Database) → (t : r.ReadTxn) × (r.begin_read d ≡ done t)
  pub open_read_up : (t : r.ReadTxn) → (u : r.ReadTable) × (r.open_read t ≡ done u)
  pub get_up : (u : r.ReadTable) (k : Bytes) → (o : Option Bytes) × (r.get u k ≡ done o)
  pub range_up :
      (u : r.ReadTable) (start end : Bytes)
      → (items : List (Attempt (Bytes × Bytes))) × (es : Map Bytes) × (r.range_items u start end
          ≡ done items)
        × (all_done items ≡ some es)
  pub begin_write_up : (d : r.Database) → (t : r.WriteTxn) × (r.begin_write d ≡ done t)
  pub open_write_up : (t : r.WriteTxn) → (u : r.WriteTable) × (r.open_write t ≡ done u)
  pub insert_up :
      (u : r.WriteTable) (k v : Bytes) → (w : r.WriteTable) × (r.insert_row u k v ≡ done w)
  pub remove_up : (u : r.WriteTable) (k : Bytes) → (w : r.WriteTable) × (r.remove_row u k ≡ done w)
  pub commit_up : (t : r.WriteTxn) (d : r.Database) → (r.commit t d).0 ≡ done tt

module _ (r : Redb) (up : IsUp r) where
  open r use {Database, ReadTable, WriteTable}

  abbrev Total : (WriteTable → Result WriteTable) → Type 0
  Total body = (t : WriteTable) → (w : WriteTable) × (body t ≡ ok w)

  transact_returns :
      (body : WriteTable → Result WriteTable)
      → Total body
      → (d : Database) → (transact r body d).0 ≡ ok tt
  unfolding transact
  transact_returns body h d =
      let (t, e) = up.begin_write_up d in
      let (u, f) = up.open_write_up t in
      let (w, g) = h u in ground (arith, up.commit_up (r.close w) d)

  insert_each-Total : (ops : Map Bytes) → Total (insert_each r ops)
  unfolding insert_each
  insert_each-Total [] t = (t, refl)
  insert_each-Total ((k, v) ∷ ops) t =
      let (u, e) = up.insert_up t k v in let (w, f) = insert_each-Total ops u in (w, ground arith)

  remove_each-Total : (ks : List Bytes) → Total (remove_each r ks)
  unfolding remove_each
  remove_each-Total [] t = (t, refl)
  remove_each-Total (k ∷ ks) t =
      let (u, e) = up.remove_up t k in let (w, f) = remove_each-Total ks u in (w, ground arith)

  put_returns : (k v : Bytes) (d : Database) → (put r k v d).0 ≡ ok tt
  unfolding put
  put_returns k v d =
      transact_returns (λ t. map_err (r.insert_row t k v))
        (λ t. let (w, e) = up.insert_up t k v in (w, ground arith)) d

  delete_returns : (k : Bytes) (d : Database) → (delete r k d).0 ≡ ok tt
  unfolding delete
  delete_returns k d =
      transact_returns (λ t. map_err (r.remove_row t k))
        (λ t. let (w, e) = up.remove_up t k in (w, ground arith)) d

  write_batch_returns :
      (puts : Map Bytes) (ks : List Bytes) (d : Database) → (write_batch r puts ks d).0 ≡ ok tt
  unfolding write_batch
  write_batch_returns puts ks d =
      transact_returns (λ t. remove_each r ks t >>= λ u. insert_each r puts u)
        (λ t.
          let (u, e) = remove_each-Total ks t in
          let (w, f) = insert_each-Total puts u in (w, ground arith))
        d

  read_table_returns : (d : Database) → (u : ReadTable) × (read_table r d ≡ ok u)
  unfolding read_table
  read_table_returns d =
      let (t, e) = up.begin_read_up d in let (u, f) = up.open_read_up t in (u, ground arith)

  get_each_returns :
      (u : ReadTable) (ks : List Bytes) → (os : List (Option Bytes)) × (get_each r u ks ≡ ok os)
  unfolding get_each
  get_each_returns u [] = ([], refl)
  get_each_returns u (k ∷ ks) =
      let (o, e) = up.get_up u k in let (os, f) = get_each_returns u ks in (o ∷ os, ground arith)

  get_returns : (d : Database) (k : Bytes) → (o : Option Bytes) × (get r d k ≡ ok o)
  unfolding get
  get_returns d k =
      let (u, e) = read_table_returns d in let (o, f) = up.get_up u k in (o, ground arith)

  multi_get_returns :
      (d : Database) (ks : List Bytes) → (os : List (Option Bytes)) × (multi_get r d ks ≡ ok os)
  unfolding multi_get
  multi_get_returns d ks =
      let (u, e) = read_table_returns d in let (os, f) = get_each_returns u ks in (os, ground arith)

  range_returns :
      (d : Database) (start end p : Bytes)
      → ((es : Map Bytes) × (scan r d start end ≡ ok es))
        × ((n : ℕ) × (count_prefix r d p ≡ ok n))
        × ((ks : List Bytes) × (scan_prefix_keys r d p ≡ ok ks))
  unfolding scan count_prefix scan_prefix_keys
  range_returns d start end p =
      let (u, e) = read_table_returns d in
      let (items, es, f, g) = up.range_up u start end in
      let (items', es', f', g') = up.range_up u p (prefix_end p) in
      (
        (es, ground (arith, loops_done r items es 0 g)),
        (0 + length es', ground (arith, loops_done r items' es' 0 g')),
        (keys es', ground (arith, loops_done r items' es' 0 g')),
      )

module _ (r : Redb) (laws : IsRedb r) (up : IsUp r) where
  open laws use {committed}
  open r use {Database}

  redb_backend_laws : IsKvStore (redb_backend r)
  redb_backend_laws = record {
    content = committed;
    get-eq = λ d k. let (o, e) = get_returns r up d k in e ∙ ap ok (get_sound r laws d k o e);
    put_returns = put_returns r up;
    content-put = λ k v d.
        committed-IsAtomic r laws _ _ _ (writes-IsAtomic r laws d k v [] []).0
          (put_returns r up k v d);
    delete_returns = delete_returns r up;
    content-delete = λ k d.
        committed-IsAtomic r laws _ _ _ (writes-IsAtomic r laws d k [] [] []).1
          (delete_returns r up k d);
    scan-eq = λ d start end ordered.
        let (es, e) = (range_returns r up d start end []).0 in
        e ∙ ap ok (scan_sound r laws d start end ordered es e);
    put_batch_returns = λ ops d.
        unfold put_batch in
        transact_returns r up (insert_each r ops) (insert_each-Total r up ops) d;
    content-put_batch = λ ops d.
        committed-IsAtomic r laws _ _ _ (writes-IsAtomic r laws d [] [] ops []).2 (
          unfold put_batch in
          transact_returns r up (insert_each r ops) (insert_each-Total r up ops) d);
    delete_batch_returns = λ ks d.
        unfold delete_batch in
        transact_returns r up (remove_each r ks) (remove_each-Total r up ks) d;
    content-delete_batch = λ ks d.
        committed-IsAtomic r laws _ _ _ (writes-IsAtomic r laws d [] [] [] ks).3 (
          unfold delete_batch in
          transact_returns r up (remove_each r ks) (remove_each-Total r up ks) d);
    write_batch_returns = write_batch_returns r up;
    content-write_batch = λ puts ks d.
        committed-IsAtomic r laws _ _ _ (writes-IsAtomic r laws d [] [] puts ks).4
          (write_batch_returns r up puts ks d);
    count_prefix-eq = λ d p ordered.
        let (n, e) = (range_returns r up d [] [] p).1 in
        e ∙ ap ok (count_prefix_sound r laws d p n ordered e);
    scan_prefix_keys-eq = λ d p ordered.
        let (ks, e) = (range_returns r up d [] [] p).2 in
        e ∙ ap ok (scan_prefix_keys_sound r laws d p ks ordered e);
    multi_get-eq = λ d ks.
        let (os, e) = multi_get_returns r up d ks in e ∙ ap ok (multi_get_sound r laws d ks os e);
  }

  -- Over a redb whose calls all succeed the backend keeps the contract of `KvStore`, with what
  -- is committed for the content.
  pub redb_backend-IsKvStore :
      (kv_laws : IsKvStore (redb_backend r)) × ((d : Database) → kv_laws.content d ≡ committed d)
  unfolding redb_backend_laws
  redb_backend-IsKvStore = (redb_backend_laws, λ d. refl)
