-- ===== src/Examples/Stores.antt =====
-- The redb backend over the redb in memory.
use dllb.Common.{List, [], ◌∷◌, Bytes, none, some, ◌≡◌, refl}
use dllb.Common.Map.{Map, insert, remove, insert_all, remove_all, range}
use dllb.Core.{ok}
use dllb.Storage.Kv.{IsKvStore}
use dllb.Storage.Backend.{
  redb_backend, put, delete, put_batch, delete_batch, write_batch, read_table, get_each, multi_get,
  collect, scan,
}
use dllb.Storage.Backend.Atomic.{IsAtomic, writes-IsAtomic}
use dllb.Storage.Backend.Implements.{redb_backend-IsKvStore}
use dllb.Storage.Actor.{get_call, scan_call, delete_cast, put_batch_cast}
use dllb.Storage.Actor.Serve.{
  StorageMessage, call, cast, serve, serve_map, serve-serve_map, Settled, serve-Settled,
}
use dllb.Examples.Memory.{memory, memory-IsRedb, memory-IsUp, memory_laws}

abbrev one : Map Bytes
one = (1 ∷ [], 5 ∷ []) ∷ []

abbrev two : Map Bytes
two = (1 ∷ [], 5 ∷ []) ∷ (2 ∷ [], 6 ∷ []) ∷ []

redb_backend-IsKvStore_example :
    (kv_laws : IsKvStore (redb_backend memory)) × ((d : Map Bytes) → kv_laws.content d ≡ d)
unfolding memory-IsRedb
redb_backend-IsKvStore_example = redb_backend-IsKvStore memory memory-IsRedb memory-IsUp

writes-IsAtomic_example :
    IsAtomic memory memory-IsRedb one
      (insert (2 ∷ []) (6 ∷ []) one)
      (put memory (2 ∷ []) (6 ∷ []) one)
    × IsAtomic memory memory-IsRedb one (remove (2 ∷ []) one) (delete memory (2 ∷ []) one)
    × IsAtomic memory memory-IsRedb one (insert_all two one) (put_batch memory two one)
    × IsAtomic memory memory-IsRedb one
        (remove_all ((1 ∷ []) ∷ []) one)
        (delete_batch memory ((1 ∷ []) ∷ []) one)
    × IsAtomic memory memory-IsRedb one
        (insert_all two (remove_all ((1 ∷ []) ∷ []) one))
        (write_batch memory two ((1 ∷ []) ∷ []) one)
unfolding memory-IsRedb
writes-IsAtomic_example =
    writes-IsAtomic memory memory-IsRedb one (2 ∷ []) (6 ∷ []) two ((1 ∷ []) ∷ [])

reads_test :
    (scan memory two (1 ∷ []) (2 ∷ []) ≡ ok one)
    × (multi_get memory two ((2 ∷ []) ∷ (3 ∷ []) ∷ []) ≡ ok (some (6 ∷ []) ∷ none ∷ []))
unfolding scan collect read_table multi_get get_each range
reads_test = (refl, refl)

abbrev some_mailbox : List StorageMessage
some_mailbox =
    cast (put_batch_cast two)
    ∷ call (get_call (2 ∷ []))
    ∷ cast (delete_cast (1 ∷ []))
    ∷ call (scan_call (1 ∷ []) (3 ∷ []))
    ∷ []

serve-serve_map_example :
    ((serve (redb_backend memory) some_mailbox one).0
      ≡ (serve_map some_mailbox (memory_laws.content one)).0)
    × (memory_laws.content (serve (redb_backend memory) some_mailbox one).1
        ≡ (serve_map some_mailbox (memory_laws.content one)).1)
serve-serve_map_example =
    serve-serve_map (redb_backend memory) memory_laws some_mailbox one (refl, tt)

serve-Settled_example :
    Settled some_mailbox
      (memory-IsRedb.committed one)
      (memory-IsRedb.committed (serve (redb_backend memory) some_mailbox one).1)
serve-Settled_example = serve-Settled memory memory-IsRedb some_mailbox one
