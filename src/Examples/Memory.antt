-- ===== src/Examples/Memory.antt =====
-- A redb that is a map in memory: the stated behaviour of redb can be met.
use dllb.Common.{List, [], ◌∷◌, Bytes, some, ◌≡◌, refl, arith}
use dllb.Common.Map.{Map, lookup, insert, remove, range}
use dllb.Core.{Attempt, done, failed}
use dllb.Storage.Redb.{Redb, IsRedb, all_done}
use dllb.Storage.Kv.{KvStore, IsKvStore}
use dllb.Storage.Backend.{redb_backend}
use dllb.Storage.Backend.Implements.{IsUp, redb_backend-IsKvStore}

abbrev pub items_of : Map Bytes → List (Attempt (Bytes × Bytes))
items_of [] = []
items_of (e ∷ m) = done e ∷ items_of m

all_done-items_of : (m : Map Bytes) → all_done (items_of m) ≡ some m
all_done-items_of [] = refl
all_done-items_of (e ∷ m) = ground (arith, all_done-items_of m)

abbrev pub memory : Redb
memory = record {
  Database = Map Bytes;
  ReadTxn = Map Bytes;
  ReadTable = Map Bytes;
  WriteTxn = Map Bytes;
  WriteTable = Map Bytes;
  begin_read = done;
  open_read = done;
  get = λ m k. done (lookup k m);
  range_items = λ m start end. done (items_of (range start end m));
  begin_write = done;
  open_write = done;
  insert_row = λ m k v. done (insert k v m);
  remove_row = λ m k. done (remove k m);
  close = λ m. m;
  commit = λ m _. (done tt, m);
}

-- the value that was returned
pub returned : {A : Type 0} (a b : A) → done a ≡ done b → b ≡ a
returned a b h = ground arith

pub range_lem :
    (u : Map Bytes) (start end : Bytes) (items : List (Attempt (Bytes × Bytes)))
    (entries : Map Bytes)
    → done (items_of (range start end u)) ≡ done items
    → all_done items ≡ some entries
    → entries ≡ range start end u
range_lem u start end items entries h e = ground (arith, all_done-items_of (range start end u))

pub never_failed : {A : Type 0} (u : Unit {0}) (text : Bytes) → done u ≡ failed text → A
never_failed u text h = absurd (ground arith)

unfoldable pub memory-IsRedb : IsRedb memory
memory-IsRedb = record {
  committed = λ m. m;
  snapshot = λ m. m;
  rows = λ m. m;
  staged = λ m. m;
  pending = λ m. m;
  begin_read_lem = λ d t h. returned _ _ h;
  open_read_lem = λ t u h. returned _ _ h;
  get_lem = λ u k o h. returned _ _ h;
  range_lem = λ u start end items entries ordered h e. range_lem u start end items entries h e;
  begin_write_lem = λ d t h. returned _ _ h;
  open_write_lem = λ t u h. returned _ _ h;
  insert_lem = λ u w k v h. returned _ _ h;
  remove_lem = λ u w k h. returned _ _ h;
  close_lem = λ u. refl;
  commit_done = λ t d h. refl;
  commit_failed = λ t d text h. never_failed _ text h;
}

pub memory-IsUp : IsUp memory
memory-IsUp = record {
  begin_read_up = λ d. (d, refl);
  open_read_up = λ d. (d, refl);
  get_up = λ u k. (lookup k u, refl);
  range_up = λ u start end. (
    items_of (range start end u),
    range start end u,
    refl,
    all_done-items_of (range start end u),
  );
  begin_write_up = λ d. (d, refl);
  open_write_up = λ d. (d, refl);
  insert_up = λ u k v. (insert k v u, refl);
  remove_up = λ u k. (remove k u, refl);
  commit_up = λ t d. refl;
}

abbrev pub memory_store : KvStore
memory_store = redb_backend memory

abbrev pub memory_laws : IsKvStore memory_store
memory_laws = (redb_backend-IsKvStore memory memory-IsRedb memory-IsUp).0

pub memory_content : (s : Map Bytes) → memory_laws.content s ≡ s
unfolding memory-IsRedb
memory_content s = (redb_backend-IsKvStore memory memory-IsRedb memory-IsUp).1 s
