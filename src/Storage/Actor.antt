-- ===== src/Storage/Actor.antt =====
-- crates/storage/src/actor.rs: the messages of the `StorageWriter` actor and its handlers. The actor
-- library keeps the mailbox and calls a handler for one message at a time; the state that a handler
-- is passed by `&mut` is returned.
pub mod Serve
use dllb.Common.{List, [], ◌∷◌, Bytes, Bool, true, false, Option, none, some}
use dllb.Common.Map.{Map}
use dllb.Core.{Result, ok, err}
use dllb.Storage.Kv.{KvStore, contains, prefix_scan}

pub data StorageCall : Type 0 where
  get_call : Bytes → StorageCall
  scan_call : Bytes → Bytes → StorageCall
  prefix_scan_call : Bytes → StorageCall
  contains_call : Bytes → StorageCall

pub data StorageCast : Type 0 where
  put_cast : Bytes → Bytes → StorageCast
  delete_cast : Bytes → StorageCast
  put_batch_cast : Map Bytes → StorageCast
  delete_batch_cast : List Bytes → StorageCast

pub data StorageReply : Type 0 where
  value_reply : Option Bytes → StorageReply
  entries_reply : Map Bytes → StorageReply
  bool_reply : Bool → StorageReply

-- `unwrap_or`, and `unwrap_or_default` with the default written out
abbrev pub unwrap_or : {A : Type 0} → Result A → A → A
unwrap_or (ok a) default = a
unwrap_or (err e) default = default

module _ (kv : KvStore) where
  open kv use {Store, get, scan, put, delete, put_batch, delete_batch}

  unfoldable pub handle_call : StorageCall → Store → StorageReply
  handle_call (get_call key) s = value_reply (unwrap_or (get s key) none)
  handle_call (scan_call start end) s = entries_reply (unwrap_or (scan s start end) [])
  handle_call (prefix_scan_call prefix) s = entries_reply (unwrap_or (prefix_scan kv s prefix) [])
  handle_call (contains_call key) s = bool_reply (unwrap_or (contains kv s key) false)

  -- An error is logged and dropped.
  unfoldable pub handle_cast : StorageCast → Store → Store
  handle_cast (put_cast key value) s = (put key value s).1
  handle_cast (delete_cast key) s = (delete key s).1
  handle_cast (put_batch_cast ops) s = (put_batch ops s).1
  handle_cast (delete_batch_cast ks) s = (delete_batch ks s).1
