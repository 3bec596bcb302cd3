-- ===== src/Graph/Components.antt =====
-- crates/graph/src/components.rs: the union-find structure over the dense indices of vertices. A
-- vector is a list; reading out of its range, which the program would panic at, gives 0 and writing
-- there nothing: theorems ask for indices in range. The loop of `find` takes fuel; `none` says that it
-- ran out. A rank is a u8.
pub mod Forest
pub mod Find
pub mod Joins
pub mod Attach
pub mod Partition
pub mod Classes
pub mod Labels
use dllb.Common.{
  ℕ, zero, suc, ◌%◌, List, [], ◌∷◌, ◌++◌, Bytes, Bool, true, false, Option, none, some, ltb, ◌==◌,
  length, if◌then◌else◌,
}
use dllb.Common.Map.{Map, lookup, insert}

-- `v[i]`
unfoldable pub at : List ℕ → ℕ → ℕ
at [] i = 0
at (x ∷ xs) zero = x
at (x ∷ xs) (suc i) = at xs i

-- `v[i] = x`
unfoldable pub set : ℕ → ℕ → List ℕ → List ℕ
set i v [] = []
set zero v (x ∷ xs) = v ∷ xs
set (suc i) v (x ∷ xs) = x ∷ set i v xs

-- `find` with path-halving: the root, and the parents after it
unfoldable pub find : ℕ → List ℕ → ℕ → Option (ℕ × List ℕ)
find zero parent x = if at parent x == x then some (x, parent) else none
find (suc fuel) parent x =
    let halved = set x (at parent (at parent x)) parent in
    let rest = find fuel halved (at halved x) in if at parent x == x then some (x, parent) else rest

-- the parents and ranks after two roots are found
unfoldable pub link : ℕ → ℕ → List ℕ → List ℕ → List ℕ × List ℕ
link ra rb parent rank =
    if ra == rb
    then (parent, rank)
    else if ltb (at rank ra) (at rank rb)
    then (set ra rb parent, rank)
    else if ltb (at rank rb) (at rank ra)
    then (set rb ra parent, rank)
    else (set rb ra parent, set ra (suc (at rank ra) % 256) rank)

unfoldable pub union : ℕ → List ℕ → List ℕ → ℕ → ℕ → Option (List ℕ × List ℕ)
union fuel parent rank a b = elim (find fuel parent a) [
  | none ↦ none
  | some (ra, parent') ↦ elim (find fuel parent' b) [
    | none ↦ none
    | some (rb, parent'') ↦ some (link ra rb parent'' rank)
  ]
]

-- the loop over the edges, as pairs of indices
unfoldable pub unite : ℕ → List (ℕ × ℕ) → List ℕ → List ℕ → Option (List ℕ × List ℕ)
unite fuel [] parent rank = some (parent, rank)
unite fuel ((a, b) ∷ edges) parent rank = elim (union fuel parent rank a b) [
  | none ↦ none
  | some (parent', rank') ↦ unite fuel edges parent' rank'
]

-- `(0..n).collect()`, from `i` on
unfoldable pub indices_from : ℕ → ℕ → List ℕ
indices_from i zero = []
indices_from i (suc n) = i ∷ indices_from (suc i) n

unfoldable pub zeros : ℕ → List ℕ
zeros zero = []
zeros (suc n) = 0 ∷ zeros n

-- the partition of `n` vertices: a union makes a chain of parents longer by one at most, so the number
-- of edges is fuel enough for each `find`
unfoldable pub partition : ℕ → List (ℕ × ℕ) → Option (List ℕ × List ℕ)
partition n edges = unite (length edges) edges (indices_from 0 n) (zeros n)

-- the loop that looks up the root of each vertex
unfoldable pub roots_of : ℕ → List ℕ → List ℕ → Option (List ℕ)
roots_of fuel [] parent = some []
roots_of fuel (i ∷ vertices) parent = elim (find fuel parent i) [
  | none ↦ none
  | some (root, parent') ↦ elim (roots_of fuel vertices parent') [
    | none ↦ none
    | some roots ↦ some (root ∷ roots)
  ]
]

-- the roots of all `n` vertices, once the edges are united
unfoldable pub component_roots : ℕ → List (ℕ × ℕ) → Option (List ℕ)
component_roots n edges = elim (partition n edges) [
  | none ↦ none
  | some (parent, rank) ↦ roots_of (length edges) (indices_from 0 n) parent
]
