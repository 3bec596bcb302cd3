-- ===== src/Graph/ShortestPath.antt =====
-- crates/graph/src/path.rs: the shortest directed path by breadth-first search. The two `while`
-- loops take fuel; `stuck` and `out_of_fuel` say that it ran out. A hash set is the list of what was
-- put into it.
pub mod Trails
pub mod Chains
pub mod Levels
pub mod Frontier
pub mod Round
pub mod Correct
use dllb.Common.{
  ℕ, zero, suc, List, [], ◌∷◌, ◌++◌, Bytes, Bool, true, false, Option, none, some, beq, any, leb,
  length, if◌then◌else◌,
}
use dllb.Common.Map.{Map, lookup, insert}

-- `adj.entry(s).or_default()`
abbrev pub or_empty : Option (List Bytes) → List Bytes
or_empty none = []
or_empty (some nbs) = nbs

unfoldable pub adjacency_from : Map (List Bytes) → List (Bytes × Bytes) → Map (List Bytes)
adjacency_from adj [] = adj
adjacency_from adj ((s, d) ∷ edges) =
    adjacency_from (insert s (or_empty (lookup s adj) ++ d ∷ []) adj) edges

abbrev pub adjacency : List (Bytes × Bytes) → Map (List Bytes)
adjacency = adjacency_from []

pub record Search : Type 0 where
  pub visited : List Bytes
  pub parent : Map Bytes
  pub queue : List (Bytes × ℕ)

abbrev pub is_visited : List Bytes → Bytes → Bool
is_visited visited v = any (λ u. beq u v) visited

-- the loop of `reconstruct`; `path` is the vector from its last element to its first, so that it is
-- returned as it is
unfoldable pub climb : ℕ → Map Bytes → Bytes → List Bytes → Option (List Bytes)
climb zero parent cur path = none
climb (suc fuel) parent cur path = elim (lookup cur parent) [
  | none ↦ some path
  | some p ↦ climb fuel parent p (p ∷ path)
]

unfoldable pub reconstruct : ℕ → Map Bytes → Bytes → Option (List Bytes)
unfolding climb
reconstruct fuel parent dst = climb fuel parent dst (dst ∷ [])

pub data Scan : Type 0 where
  running : Search → Scan
  arrived : List Bytes → Scan
  stuck : Scan

abbrev pub arrive : Option (List Bytes) → Scan
arrive none = stuck
arrive (some path) = arrived path

-- the search with `nb` discovered from `node`
abbrev pub discover : Bytes → Bytes → ℕ → Search → Search
discover nb node depth s = record {
  visited = nb ∷ s.visited;
  parent = insert nb node s.parent;
  queue = s.queue ++ (nb, suc depth) ∷ [];
}

-- the loop over the neighbors of `node`
unfoldable pub visit_neighbors : Bytes → Bytes → ℕ → List Bytes → Search → Scan
unfolding reconstruct
visit_neighbors dst node depth [] s = running s
visit_neighbors dst node depth (nb ∷ neighbors) s =
    let on = visit_neighbors dst node depth neighbors (discover nb node depth s) in
    let skip = visit_neighbors dst node depth neighbors s in
    if is_visited s.visited nb
    then skip
    else if beq nb dst
    then arrive (reconstruct (length (nb ∷ s.visited)) (insert nb node s.parent) dst)
    else on

pub data Outcome : Type 0 where
  found : List Bytes → Outcome
  not_found out_of_fuel : Outcome

-- `max_depth.is_some_and(|m| depth >= m)`
abbrev pub over : Option ℕ → ℕ → Bool
over none depth = false
over (some m) depth = leb m depth

-- one round of the outer loop, after `node` left the queue
unfoldable pub expand : Map (List Bytes) → Bytes → Option ℕ → Bytes → ℕ → Search → Scan
unfolding visit_neighbors
expand adj dst max_depth node depth s =
    if over max_depth depth then running s else elim (lookup node adj) [
      | none ↦ running s
      | some neighbors ↦ visit_neighbors dst node depth neighbors s
    ]

unfoldable pub search_loop : Map (List Bytes) → Bytes → Option ℕ → ℕ → Search → Outcome
unfolding expand
search_loop adj dst max_depth zero s = out_of_fuel
search_loop adj dst max_depth (suc fuel) s = elim s.queue [
  | [] ↦ not_found
  | (node, depth) ∷ queue ↦
      elim (expand adj dst max_depth node depth (record s { queue = queue })) [
        | running s' ↦ search_loop adj dst max_depth fuel s'
        | arrived path ↦ found path
        | stuck ↦ out_of_fuel
      ]
]

abbrev pub start : Bytes → Search
start src = record { visited = src ∷ []; parent = []; queue = (src, 0) ∷ [] }

-- A round takes one vertex off the queue, and each but the source was put there for an edge.
unfoldable pub shortest_path : List (Bytes × Bytes) → Bytes → Bytes → Option ℕ → Outcome
unfolding search_loop adjacency_from
shortest_path edges src dst max_depth =
    if beq src dst
    then found (src ∷ [])
    else search_loop (adjacency edges) dst max_depth (suc (suc (length edges))) (start src)
