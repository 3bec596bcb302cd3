-- ===== src/Query/Executor/Keys.antt =====
-- A cache key names the statement that it was built of (crates/query/src/executor.rs).
use dllb.Common.{Bytes, some, ◌≡◌, refl, beq, if◌then◌else◌}
use dllb.Query.Ast.{
  OutcomeFormat, CommunityAlgorithm, louvain, label_propagation, CentralityMode, degree, in_degree,
  out_degree, Statement, graph_communities, graph_components, graph_pagerank, graph_centrality,
}
use dllb.Query.Cache.{CacheKey, communities_kind, components_kind, pagerank_kind, centrality_kind}
use dllb.Query.Executor.{algo_str, centrality_mode_str, key_of}

algo_of : Bytes → CommunityAlgorithm
unfolding algo_str
algo_of a = if beq a (algo_str louvain) then louvain else label_propagation

mode_of : Bytes → CentralityMode
unfolding centrality_mode_str
mode_of a =
    if beq a (centrality_mode_str degree)
    then degree
    else if beq a (centrality_mode_str in_degree)
    then in_degree
    else out_degree

unfoldable pub statement_of : CacheKey → Statement
unfolding algo_of mode_of
statement_of key = elim key.kind [
  | communities_kind a m r ↦ graph_communities key.table (algo_of a) m r
  | components_kind ↦ graph_components key.table
  | pagerank_kind d m l ↦ graph_pagerank key.table d m l
  | centrality_kind a l ↦ graph_centrality key.table (mode_of a) l
]

-- what a key was built of
pub record Built (ns db : Bytes) (stmt : Statement) (outcome : OutcomeFormat) (key : CacheKey)
    : Type 0 where
  pub statement : statement_of key ≡ stmt
  pub same_ns : key.ns ≡ ns
  pub same_db : key.db ≡ db
  pub same_outcome : key.outcome ≡ outcome

key_lem : {a b : CacheKey} → some a ≡ some b → b ≡ a
key_lem h = cc

pub key_of-Built :
    (ns db : Bytes) (stmt : Statement) (outcome : OutcomeFormat) (key : CacheKey)
    → key_of ns db stmt outcome ≡ some key
    → Built ns db stmt outcome key
unfolding key_of statement_of algo_of mode_of algo_str centrality_mode_str
key_of-Built ns db (graph_communities t louvain m r) outcome key h =
    rw (key_lem h)
      (record { statement = refl; same_ns = refl; same_db = refl; same_outcome = refl })
key_of-Built ns db (graph_communities t label_propagation m r) outcome key h =
    rw (key_lem h)
      (record { statement = refl; same_ns = refl; same_db = refl; same_outcome = refl })
key_of-Built ns db (graph_components t) outcome key h =
    rw (key_lem h)
      (record { statement = refl; same_ns = refl; same_db = refl; same_outcome = refl })
key_of-Built ns db (graph_pagerank t d m l) outcome key h =
    rw (key_lem h)
      (record { statement = refl; same_ns = refl; same_db = refl; same_outcome = refl })
key_of-Built ns db (graph_centrality t degree l) outcome key h =
    rw (key_lem h)
      (record { statement = refl; same_ns = refl; same_db = refl; same_outcome = refl })
key_of-Built ns db (graph_centrality t in_degree l) outcome key h =
    rw (key_lem h)
      (record { statement = refl; same_ns = refl; same_db = refl; same_outcome = refl })
key_of-Built ns db (graph_centrality t out_degree l) outcome key h =
    rw (key_lem h)
      (record { statement = refl; same_ns = refl; same_db = refl; same_outcome = refl })
key_of-Built ns db _ outcome key h = absurd cc
