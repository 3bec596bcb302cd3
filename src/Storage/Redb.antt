-- ===== src/Storage/Redb.antt =====
-- The redb library, which the repository does not hold: the calls that crates/storage/src/backend.rs
-- makes of it, and what its documentation says of them. A write transaction sees its own writes,
-- nothing of it is in the database before `commit`, and a commit takes place whole or not at all.
use dllb.Common.{List, [], ◌∷◌, Bytes, Option, none, some, ◌≡◌, true, ◌⊎◌}
use dllb.Common.Order.{lex_le}
use dllb.Common.Map.{Map, lookup, insert, remove, range}
use dllb.Core.{Result, ok, err, storage, external, Attempt, done, failed}

-- `map_err`
abbrev pub map_err : {A : Type 0} → Attempt A → Result A
map_err (done a) = ok a
map_err (failed text) = err (storage (external text))

pub record Redb : Type 1 where
  pub Database : Type 0
  pub ReadTxn : Type 0
  pub ReadTable : Type 0
  pub WriteTxn : Type 0
  pub WriteTable : Type 0
  pub begin_read : Database → Attempt ReadTxn
  pub open_read : ReadTxn → Attempt ReadTable
  pub get : ReadTable → Bytes → Attempt (Option Bytes)
  pub range_items : ReadTable → Bytes → Bytes → Attempt (List (Attempt (Bytes × Bytes)))
  pub begin_write : Database → Attempt WriteTxn
  pub open_write : WriteTxn → Attempt WriteTable
  pub insert_row : WriteTable → Bytes → Bytes → Attempt WriteTable
  pub remove_row : WriteTable → Bytes → Attempt WriteTable
  pub close : WriteTable → WriteTxn
  pub commit : WriteTxn → Database → Attempt (Unit {0}) × Database

-- the items of an iterator none of which failed
abbrev pub all_done : {A : Type 0} → List (Attempt A) → Option (List A)
all_done [] = some []
all_done (failed _ ∷ items) = none
all_done (done a ∷ items) = elim (all_done items) [ none ↦ none | some rest ↦ some (a ∷ rest) ]

pub record IsRedb (r : Redb) : Type 0 where
  pub committed : r.Database → Map Bytes
  pub snapshot : r.ReadTxn → Map Bytes
  pub rows : r.ReadTable → Map Bytes
  pub staged : r.WriteTxn → Map Bytes
  pub pending : r.WriteTable → Map Bytes
  pub begin_read_lem :
      (d : r.Database) (t : r.ReadTxn) → r.begin_read d ≡ done t → snapshot t ≡ committed d
  pub open_read_lem :
      (t : r.ReadTxn) (u : r.ReadTable) → r.open_read t ≡ done u → rows u ≡ snapshot t
  pub get_lem :
      (u : r.ReadTable) (k : Bytes) (o : Option Bytes) → r.get u k ≡ done o → o ≡ lookup k (rows u)
  pub range_lem :
      (u : r.ReadTable) (start end : Bytes) (items : List (Attempt (Bytes × Bytes)))
      (entries : Map Bytes)
      → lex_le start end ≡ true
      → r.range_items u start end ≡ done items
      → all_done items ≡ some entries
      → entries ≡ range start end (rows u)
  pub begin_write_lem :
      (d : r.Database) (t : r.WriteTxn) → r.begin_write d ≡ done t → staged t ≡ committed d
  pub open_write_lem :
      (t : r.WriteTxn) (u : r.WriteTable) → r.open_write t ≡ done u → pending u ≡ staged t
  pub insert_lem :
      (u w : r.WriteTable) (k v : Bytes)
      → r.insert_row u k v ≡ done w
      → pending w ≡ insert k v (pending u)
  pub remove_lem :
      (u w : r.WriteTable) (k : Bytes)
      → r.remove_row u k ≡ done w
      → pending w ≡ remove k (pending u)
  pub close_lem : (u : r.WriteTable) → staged (r.close u) ≡ pending u
  pub commit_done :
      (t : r.WriteTxn) (d : r.Database)
      → (r.commit t d).0 ≡ done tt
      → committed (r.commit t d).1 ≡ staged t
  pub commit_failed :
      (t : r.WriteTxn) (d : r.Database) (text : Bytes)
      → (r.commit t d).0 ≡ failed text
      → (committed (r.commit t d).1 ≡ committed d) ⊎ (committed (r.commit t d).1 ≡ staged t)
