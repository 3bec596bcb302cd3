-- ===== src/Storage/Backend.antt =====
-- crates/storage/src/backend.rs: `RedbBackend` over the calls of redb. `open` is in no use after
-- start-up; `db_handle` hands redb's own handle out, and `compact` is redb's.
pub mod Atomic
pub mod Reads
pub mod Implements
use dllb.Common.{ℕ, List, [], ◌∷◌, Bytes, Option, ◌≡◌, ◌+◌}
use dllb.Common.Map.{Map}
use dllb.Core.{Result, ok, err, ◌>>=◌, Attempt, done, failed}
use dllb.Storage.Key.PrefixEnd.{prefix_end}
use dllb.Storage.Kv.{KvStore}
use dllb.Storage.Redb.{Redb, map_err}

module _ (r : Redb) where
  open r use {
    Database, ReadTable, WriteTxn, WriteTable, begin_read, open_read, range_items, begin_write,
    open_write, insert_row, remove_row, close, commit,
  }

  -- a read transaction with the data table open
  unfoldable pub read_table : Database → Result ReadTable
  read_table d = do txn ← map_err (begin_read d); map_err (open_read txn)

  unfoldable pub finish : Result WriteTxn → Database → Result (Unit {0}) × Database
  finish (err e) d = (err e, d)
  finish (ok txn) d = let (outcome, d') = commit txn d in (map_err outcome, d')

  -- begin, open the table, run the body on it, drop the table; an error drops the transaction
  unfoldable pub stage : (WriteTable → Result WriteTable) → Database → Result WriteTxn
  stage body d = do
    txn ← map_err (begin_write d)
    table ← map_err (open_write txn)
    written ← body table
    ok (close written)

  -- the same, and commit
  unfoldable pub transact :
      (WriteTable → Result WriteTable) → Database → Result (Unit {0}) × Database
  unfolding finish stage
  transact body d = finish (stage body d) d

  -- the loops over a batch
  unfoldable pub insert_each : Map Bytes → WriteTable → Result WriteTable
  insert_each [] table = ok table
  insert_each ((k, v) ∷ ops) table = do
    table' ← map_err (insert_row table k v)
    insert_each ops table'

  unfoldable pub remove_each : List Bytes → WriteTable → Result WriteTable
  remove_each [] table = ok table
  remove_each (k ∷ ks) table = do table' ← map_err (remove_row table k); remove_each ks table'

  unfoldable pub get : Database → Bytes → Result (Option Bytes)
  unfolding read_table
  get d key = do table ← read_table d; map_err (r.get table key)

  unfoldable pub put : Bytes → Bytes → Database → Result (Unit {0}) × Database
  unfolding transact
  put key value = transact (λ table. map_err (insert_row table key value))

  unfoldable pub delete : Bytes → Database → Result (Unit {0}) × Database
  unfolding transact
  delete key = transact (λ table. map_err (remove_row table key))

  unfoldable pub collect : List (Attempt (Bytes × Bytes)) → Result (Map Bytes)
  collect [] = ok []
  collect (item ∷ items) = do e ← map_err item; rest ← collect items; ok (e ∷ rest)

  unfoldable pub scan : Database → Bytes → Bytes → Result (Map Bytes)
  unfolding read_table collect
  scan d start end = do
    table ← read_table d
    items ← map_err (range_items table start end)
    collect items

  unfoldable pub put_batch : Map Bytes → Database → Result (Unit {0}) × Database
  unfolding transact insert_each
  put_batch ops = transact (insert_each ops)

  unfoldable pub delete_batch : List Bytes → Database → Result (Unit {0}) × Database
  unfolding transact remove_each
  delete_batch ks = transact (remove_each ks)

  unfoldable pub write_batch : Map Bytes → List Bytes → Database → Result (Unit {0}) × Database
  unfolding transact insert_each remove_each
  write_batch puts deletes =
      transact (λ table. remove_each deletes table >>= λ table'. insert_each puts table')

  -- the loops of the prefix methods
  unfoldable pub count_items : ℕ → List (Attempt (Bytes × Bytes)) → Result ℕ
  count_items n [] = ok n
  count_items n (item ∷ items) = do _ ← map_err item; count_items (n + 1) items

  unfoldable pub key_items : List (Attempt (Bytes × Bytes)) → Result (List Bytes)
  key_items [] = ok []
  key_items (item ∷ items) = do e ← map_err item; rest ← key_items items; ok (e.0 ∷ rest)

  unfoldable pub count_prefix : Database → Bytes → Result ℕ
  unfolding read_table count_items
  count_prefix d prefix = do
    table ← read_table d
    items ← map_err (range_items table prefix (prefix_end prefix))
    count_items 0 items

  unfoldable pub scan_prefix_keys : Database → Bytes → Result (List Bytes)
  unfolding read_table key_items
  scan_prefix_keys d prefix = do
    table ← read_table d
    items ← map_err (range_items table prefix (prefix_end prefix))
    key_items items

  unfoldable pub get_each : ReadTable → List Bytes → Result (List (Option Bytes))
  get_each table [] = ok []
  get_each table (k ∷ ks) = do
    found ← map_err (r.get table k)
    rest ← get_each table ks
    ok (found ∷ rest)

  -- one read transaction for all keys
  unfoldable pub multi_get : Database → List Bytes → Result (List (Option Bytes))
  unfolding read_table get_each
  multi_get d ks = do table ← read_table d; get_each table ks

  abbrev pub redb_backend : KvStore
  redb_backend = record {
    Store = Database;
    get = get;
    put = put;
    delete = delete;
    scan = scan;
    put_batch = put_batch;
    delete_batch = delete_batch;
    write_batch = write_batch;
    count_prefix = count_prefix;
    scan_prefix_keys = scan_prefix_keys;
    multi_get = multi_get;
  }
