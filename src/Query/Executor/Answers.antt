-- ===== src/Query/Executor/Answers.antt =====
-- The answers that executors give with a shared cache (crates/query/src/executor.rs), and the ones that
-- they may give: what is computed now, or what was computed before for the same request.
use dllb.Common.{
  ℕ, ◌≤◌, List, [], ◌∷◌, Bytes, Bool, false, Option, none, some, ◌≡◌, Member, if◌then◌else◌,
}
use dllb.Core.{Result, ok, err}
use dllb.Query.Ast.{
  OutcomeFormat, Statement, relate, graph_communities, graph_components, graph_pagerank,
  graph_centrality, Query,
}
use dllb.Query.Cache.{TableKey, table_key, table_beq, version_of, CacheKey, CacheEntry, LruCache}
use dllb.Query.Cache.Lru.{IsLru, find}
use dllb.Query.Cache.Bounds.{IsBounded}
use dllb.Query.Executor.{QueryResult, done, cached_response, Shared, run}
use dllb.Query.Executor.Keys.{statement_of}

-- a query, and the namespace and database of the executor that runs it
pub record Request : Type 0 where
  pub ns : Bytes
  pub db : Bytes
  pub query : Query

-- the edge table that a graph statement reads
unfoldable pub subject : Bytes → Bytes → Statement → Option TableKey
subject ns db (graph_communities table _ _ _) = some (table_key ns db table)
subject ns db (graph_components table) = some (table_key ns db table)
subject ns db (graph_pagerank table _ _ _) = some (table_key ns db table)
subject ns db (graph_centrality table _ _) = some (table_key ns db table)
subject ns db _ = none

-- the edge table that a statement wrote
unfoldable pub written : Bytes → Bytes → Statement → QueryResult → Option TableKey
written ns db (relate _ edge_type _ _) done = some (table_key ns db edge_type)
written ns db _ _ = none

abbrev pub is_about : TableKey → Option TableKey → Bool
is_about t none = false
is_about t (some u) = table_beq t u

-- the graph statements that were computed, with their results
abbrev pub Past : Type 0
Past = List (Request × QueryResult)

unfoldable pub forget : TableKey → Past → Past
forget t [] = []
forget t ((r, result) ∷ past) =
    let rest = forget t past in
    if is_about t (subject r.ns r.db r.query.statement) then rest else (r, result) ∷ rest

abbrev pub remember : Option TableKey → Request → QueryResult → Past → Past
remember none r result past = past
remember (some _) r result past = (r, result) ∷ past

-- A write of a table ends what was computed of it.
abbrev pub renew : Option TableKey → Request → QueryResult → Past → Past
renew (some t) r result past = forget t past
renew none r result past = remember (subject r.ns r.db r.query.statement) r result past

-- after a request was executed
abbrev pub note : Request → Result QueryResult → Past → Past
note r (err e) past = past
note r (ok result) past = renew (written r.ns r.db r.query.statement result) r result past

module _ {S : Type 0} (format_result : QueryResult → OutcomeFormat → Bytes)
    (execute : Bytes → Bytes → Statement → S → Result QueryResult × S) where
  -- The answer to a request, the storage and the past after it.
  pub data Answered (r : Request) (s : S) (past : Past)
      : Result QueryResult → S → Past → Type 0 where
    computed :
        {answer : Result QueryResult} {s' : S}
        → execute r.ns r.db r.query.statement s ≡ (answer, s')
        → Answered r s past answer s' (note r answer past)
    recalled :
        {payload : Bytes} (result : QueryResult)
        → Member (r, result) past
        → format_result result r.query.outcome ≡ payload
        → Answered r s past (ok (cached_response payload)) s past

  pub data Served : List Request → S → Past → List (Result QueryResult) → Type 0 where
    nothing : {s : S} {past : Past} → Served [] s past []
    then_answer :
        {r : Request} {requests : List Request} {s s' : S} {past past' : Past}
        {answer : Result QueryResult} {answers : List (Result QueryResult)}
        → Answered r s past answer s' past'
        → Served requests s' past' answers
        → Served (r ∷ requests) s past (answer ∷ answers)

  module _ (lru : LruCache) where
    -- executors that share a cache, a whole query at a time; `none` if an eviction runs out of fuel
    abbrev pub cached : List Request → S → Shared lru → Option (List (Result QueryResult))
    cached [] s shared = some []
    cached (r ∷ requests) s shared =
        elim (run lru format_result execute r.ns r.db r.query s shared) [
          | none ↦ none
          | some (result, s', shared') ↦ elim (cached requests s' shared') [
            | none ↦ none
            | some rest ↦ some (result ∷ rest)
          ]
        ]

abbrev pub table_of : CacheKey → TableKey
table_of key = table_key key.ns key.db key.table

-- the request that a key was built of
abbrev pub request_of : CacheKey → Request
request_of key = record {
  ns = key.ns;
  db = key.db;
  query = record { statement = statement_of key; outcome = key.outcome };
}

-- A payload that is stored at the current version was computed in the past that is not forgotten.
pub record IsFresh (format_result : QueryResult → OutcomeFormat → Bytes) (lru : LruCache)
    (laws : IsLru lru) (n : ℕ) (past : Past) (shared : Shared lru) : Type 0 where
  pub bounded : IsBounded lru laws shared.cache
  pub counts : (t : TableKey) → version_of t shared.versions ≤ n
  pub older :
      (k : CacheKey) (e : CacheEntry)
      → find k (laws.entries shared.cache.cache) ≡ some e
      → e.version ≤ version_of (table_of k) shared.versions
  pub right :
      (k : CacheKey) (e : CacheEntry)
      → find k (laws.entries shared.cache.cache) ≡ some e
      → e.version ≡ version_of (table_of k) shared.versions
      → (result : QueryResult) × Member (request_of k, result) past
        × (format_result result k.outcome ≡ e.payload)
