-- ===== src/Examples/Caches.antt =====
-- The cache and the executor around it, over the cache in memory and a storage that counts the edges
-- of each table.
use dllb.Common.{
  ℕ, suc, ◌+◌, ◌<◌, ◌^◌, List, [], ◌∷◌, Bytes, true, false, none, some, ◌≡◌, refl, arith, length,
  beq, ◌==◌, ◌&&◌, if◌then◌else◌,
}
use dllb.Common.Int.{pos}
use dllb.Core.{Result, ok, err, not_found, record_not_found}
use dllb.Query.Ast.{
  OutcomeFormat, json, Statement, relate, graph_communities, graph_components, graph_pagerank,
  graph_centrality, compact,
}
use dllb.Query.Cache.{
  TableKey, table_key, table_beq, CacheKey, components_kind, key_beq, InnerCache, with_bounds, get,
  insert, current, bump,
}
use dllb.Query.Cache.Bounds.{with_bounds-IsBounded}
use dllb.Query.Cache.Insert.{Inserted, insert-Inserted}
use dllb.Query.Executor.{
  QueryResult, done, cached_response, components, new_key, is_stored, start_shared, try_cache_hit,
  post_execute, run,
}
use dllb.Query.Executor.Answers.{Request, cached, Served}
use dllb.Query.Executor.Correct.{cached_answers}
use dllb.Examples.LruMemory.{memory_lru, memory_lru-IsLru}

abbrev Tables : Type 0
Tables = List TableKey

-- how many edges were related in a table
abbrev edges_of : TableKey → Tables → ℕ
edges_of t [] = 0
edges_of t (u ∷ s) = let rest = edges_of t s in if table_beq u t then suc rest else rest

small_execute : Bytes → Bytes → Statement → Tables → Result QueryResult × Tables
small_execute ns db (relate _ edge_type _ _) s = (ok done, table_key ns db edge_type ∷ s)
small_execute ns db (graph_components table) s =
    let n = edges_of (table_key ns db table) s in (ok (components (pos n) (pos n) (pos n)), s)
small_execute ns db _ s = (err (not_found (record_not_found [])), s)

small_format : QueryResult → OutcomeFormat → Bytes
small_format (cached_response p) outcome = p
small_format (components (pos n) _ _) outcome = n ∷ []
small_format _ outcome = []

never_stored : (stmt : Statement) (p : Bytes) → is_stored stmt (cached_response p) ≡ false
unfolding is_stored
never_stored (graph_communities _ _ _ _) p = refl
never_stored (graph_components _) p = refl
never_stored (graph_pagerank _ _ _ _) p = refl
never_stored (graph_centrality _ _ _) p = refl
never_stored _ p = refl

small_short :
    (stmt : Statement) (r : QueryResult) (outcome : OutcomeFormat)
    → is_stored stmt r ≡ true
    → length (small_format r outcome) + 128 < 2 ^ 63
unfolding small_format
small_short stmt (cached_response p) outcome h = absurd (ground (arith, never_stored stmt p))
small_short stmt (components (pos n) _ _) outcome h = omega arith
small_short stmt _ outcome h = omega arith

abbrev request : Statement → Request
request stmt = record {
  ns = b'n' ∷ [];
  db = b'd' ∷ [];
  query = record { statement = stmt; outcome = json };
}

abbrev relate_one : Statement
relate_one =
    relate (record { table = b'p' ∷ []; id = b'a' ∷ [] }) (b't' ∷ [])
      (record { table = b'p' ∷ []; id = b'b' ∷ [] }) []

abbrev some_requests : List Request
some_requests =
    request relate_one
    ∷ request (graph_components (b't' ∷ []))
    ∷ request (graph_components (b't' ∷ []))
    ∷ request relate_one
    ∷ request (graph_components (b't' ∷ []))
    ∷ request compact
    ∷ []

cached_answers_example :
    (answers : List (Result QueryResult)) × (cached small_format small_execute memory_lru
        some_requests []
        (start_shared memory_lru 2 1000)
      ≡ some answers)
    × Served small_format small_execute some_requests [] [] answers
cached_answers_example =
    cached_answers small_format small_execute small_short memory_lru memory_lru-IsLru 2 1000
      some_requests [] (omega arith) (omega arith)

-- the second request for the components is answered by the cache, and the third one, after a write,
-- is not
cached_test :
    cached small_format small_execute memory_lru some_requests [] (start_shared memory_lru 2 1000)
    ≡ some (
        ok done
        ∷ ok (components (pos 1) (pos 1) (pos 1))
        ∷ ok (cached_response (1 ∷ []))
        ∷ ok done
        ∷ ok (components (pos 2) (pos 2) (pos 2))
        ∷ err (not_found (record_not_found []))
        ∷ [])
unfolding run post_execute try_cache_hit with_bounds get insert small_execute small_format table_beq
    key_beq current bump
cached_test = refl

abbrev a_key : CacheKey
a_key = new_key (b'n' ∷ []) (b'd' ∷ []) (b't' ∷ []) components_kind json

insert-Inserted_example :
    (after : InnerCache memory_lru) × (insert memory_lru a_key
        (7 ∷ [])
        3
        (with_bounds memory_lru 1 200)
      ≡ some after)
    × Inserted memory_lru memory_lru-IsLru a_key
        (record { payload = 7 ∷ []; version = 3; bytes = 129 })
        (with_bounds memory_lru 1 200)
        after
insert-Inserted_example =
    insert-Inserted memory_lru memory_lru-IsLru a_key (7 ∷ []) 3 (with_bounds memory_lru 1 200)
      (with_bounds-IsBounded memory_lru memory_lru-IsLru 1 200 (omega arith)) (omega arith)

-- An entry that is too large for the budget is kept all the same.
large_test :
    elim (insert memory_lru a_key (7 ∷ []) 3 (with_bounds memory_lru 1 100)) [
      | none ↦ false
      | some after ↦ after.current_bytes == 129
    ]
    ≡ true
unfolding insert with_bounds
large_test = refl

-- Two executors take turns: the first computes, the second relates an edge, the first then stores its
-- result. It does so under the version after the write.
abbrev empty_tables : QueryResult
empty_tables = components (pos 0) (pos 0) (pos 0)

stale_test :
    elim (run memory_lru small_format small_execute
      (b'n' ∷ [])
      (b'd' ∷ [])
      (record { statement = relate_one; outcome = json })
      []
      (start_shared memory_lru 2 1000)) [
        | none ↦ false
        | some (_, s, shared) ↦
            elim (post_execute memory_lru small_format
              (b'n' ∷ [])
              (b'd' ∷ [])
              (graph_components (b't' ∷ []))
              empty_tables
              json
              shared) [
                | none ↦ false
                | some later ↦
                    elim (try_cache_hit memory_lru
                      (b'n' ∷ [])
                      (b'd' ∷ [])
                      (graph_components (b't' ∷ []))
                      json
                      later).0 [
                        | none ↦ false
                        | some payload ↦
                            beq payload (0 ∷ [])
                            && (edges_of (table_key (b'n' ∷ []) (b'd' ∷ []) (b't' ∷ [])) s == 1)
                      ]
              ]
      ]
    ≡ true
unfolding run post_execute try_cache_hit with_bounds get insert small_execute small_format table_beq
    key_beq current bump
stale_test = refl
