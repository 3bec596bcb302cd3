-- ===== src/Query/Executor.antt =====
-- crates/query/src/executor.rs: `run` with the read of the cache before it and what is done after it.
-- The cache and the versions are shared by all executors; an executor has its own namespace and
-- database. The handlers of the statements (`execute`), over a storage `S`, and `format_result` are
-- parameters.
pub mod Keys
pub mod Answers
pub mod Fresh
pub mod Run
pub mod Correct
use dllb.Common.{ℕ, List, [], ◌∷◌, Bytes, Bool, true, false, Option, none, some}
use dllb.Common.Int.{ℤ}
use dllb.Common.Map.{Map}
use dllb.Core.{Value, RecordId, Result, ok, err}
use dllb.Query.Ast.{
  OutcomeFormat, CommunityAlgorithm, louvain, label_propagation, CentralityMode, degree, in_degree,
  out_degree, Statement, relate, graph_communities, graph_components, graph_pagerank,
  graph_centrality, Query,
}
use dllb.Query.Cache.{
  CacheKey, CacheKind, communities_kind, components_kind, pagerank_kind, centrality_kind, LruCache,
  InnerCache, WriteVersions, with_bounds, current, bump, get, insert,
}

pub data QueryResult : Type 0 where
  done : QueryResult
  created updated : RecordId → QueryResult
  deleted : Bool → QueryResult
  deleted_many : ℕ → QueryResult
  rows : List (Map Value) → QueryResult
  communities : Bytes → List (Map Value) → QueryResult
  cached_response : Bytes → QueryResult
  batch : ℕ → ℕ → ℕ → QueryResult
  updated_count : ℕ → QueryResult
  count_result : ℕ → QueryResult
  components : ℤ → ℤ → ℤ → QueryResult

unfoldable pub algo_str : CommunityAlgorithm → Bytes
algo_str louvain = b'l' ∷ b'o' ∷ b'u' ∷ b'v' ∷ b'a' ∷ b'i' ∷ b'n' ∷ []
algo_str label_propagation = b'l' ∷ b'p' ∷ []

unfoldable pub centrality_mode_str : CentralityMode → Bytes
centrality_mode_str degree = b'd' ∷ b'e' ∷ b'g' ∷ b'r' ∷ b'e' ∷ b'e' ∷ []
centrality_mode_str in_degree = b'i' ∷ b'n' ∷ b'd' ∷ b'e' ∷ b'g' ∷ b'r' ∷ b'e' ∷ b'e' ∷ []
centrality_mode_str out_degree = b'o' ∷ b'u' ∷ b't' ∷ b'd' ∷ b'e' ∷ b'g' ∷ b'r' ∷ b'e' ∷ b'e' ∷ []

abbrev pub new_key : Bytes → Bytes → Bytes → CacheKind → OutcomeFormat → CacheKey
new_key ns db table kind outcome = record {
  ns = ns;
  db = db;
  table = table;
  kind = kind;
  outcome = outcome;
}

-- the key that both `try_cache_hit` and `post_execute` build of a cacheable statement
unfoldable pub key_of : Bytes → Bytes → Statement → OutcomeFormat → Option CacheKey
key_of ns db (graph_communities table algorithm max_iterations resolution) outcome =
    some (
      new_key ns db table (communities_kind (algo_str algorithm) max_iterations resolution) outcome)
key_of ns db (graph_components table) outcome = some (new_key ns db table components_kind outcome)
key_of ns db (graph_pagerank table damping max_iterations limit) outcome =
    some (new_key ns db table (pagerank_kind damping max_iterations limit) outcome)
key_of ns db (graph_centrality table mode limit) outcome =
    some (new_key ns db table (centrality_kind (centrality_mode_str mode) limit) outcome)
key_of ns db _ outcome = none

-- the results that `post_execute` stores
unfoldable pub is_stored : Statement → QueryResult → Bool
is_stored (graph_communities _ _ _ _) (communities _ _) = true
is_stored (graph_components _) (components _ _ _) = true
is_stored (graph_pagerank _ _ _ _) (rows _) = true
is_stored (graph_centrality _ _ _) (rows _) = true
is_stored _ _ = false

module _ (lru : LruCache) where
  pub record Shared : Type 0 where
    pub cache : InnerCache lru
    pub versions : WriteVersions

  -- an empty cache and no writes
  abbrev pub start_shared : ℕ → ℕ → Shared
  start_shared capacity max_bytes = record {
    cache = with_bounds lru capacity max_bytes;
    versions = [];
  }

  abbrev pub version_now : CacheKey → WriteVersions → ℕ
  version_now key versions = current versions key.ns key.db key.table

  unfoldable pub try_cache_hit :
      Bytes → Bytes → Statement → OutcomeFormat → Shared → Option Bytes × Shared
  unfolding key_of
  try_cache_hit ns db stmt outcome shared = elim (key_of ns db stmt outcome) [
    | none ↦ (none, shared)
    | some key ↦
        let hit = get lru key (version_now key shared.versions) shared.cache in
        (hit.0, record shared { cache = hit.1 })
  ]

  -- `none` where the eviction loop runs out of fuel
  abbrev pub with_cache : Shared → Option (InnerCache lru) → Option Shared
  with_cache shared none = none
  with_cache shared (some cache) = some (record shared { cache = cache })

  module _ (format_result : QueryResult → OutcomeFormat → Bytes) where
    -- the cacheable statements of `post_execute`, which read the version again
    unfoldable pub store_result :
        Bytes → Bytes → Statement → QueryResult → OutcomeFormat → Shared → Option Shared
    unfolding key_of is_stored
    store_result ns db stmt result outcome shared = elim (key_of ns db stmt outcome) [
      | none ↦ some shared
      | some key ↦ elim (is_stored stmt result) [
        | false ↦ some shared
        | true ↦ with_cache shared (
            insert lru key (format_result result outcome) (version_now key shared.versions)
              shared.cache)
      ]
    ]

    unfoldable pub post_execute :
        Bytes → Bytes → Statement → QueryResult → OutcomeFormat → Shared → Option Shared
    unfolding store_result
    post_execute ns db (relate src edge_type dst fields) done outcome shared =
        some (record shared { versions = bump ns db edge_type shared.versions })
    post_execute ns db stmt result outcome shared = store_result ns db stmt result outcome shared

    module _ {S : Type 0} (execute : Bytes → Bytes → Statement → S → Result QueryResult × S) where
      -- after the read of the cache missed
      unfoldable pub after_execute :
          Bytes
          → Bytes
          → Query
          → Result QueryResult × S
          → Shared
          → Option (Result QueryResult × S × Shared)
      unfolding post_execute
      after_execute ns db q (err e, s) shared = some (err e, s, shared)
      after_execute ns db q (ok result, s) shared =
          elim (post_execute ns db q.statement result q.outcome shared) [
            | none ↦ none
            | some shared' ↦ some (ok result, s, shared')
          ]

      -- with what the read of the cache gave
      unfoldable pub after_lookup :
          Bytes
          → Bytes
          → Query
          → S
          → Option Bytes × Shared
          → Option (Result QueryResult × S × Shared)
      unfolding after_execute
      after_lookup ns db q s (some payload, shared) = some (ok (cached_response payload), s, shared)
      after_lookup ns db q s (none, shared) =
          after_execute ns db q (execute ns db q.statement s) shared

      -- `run` of a query that was parsed
      unfoldable pub run :
          Bytes → Bytes → Query → S → Shared → Option (Result QueryResult × S × Shared)
      unfolding try_cache_hit after_lookup
      run ns db q s shared =
          after_lookup ns db q s (try_cache_hit ns db q.statement q.outcome shared)
