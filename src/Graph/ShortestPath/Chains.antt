-- ===== src/Graph/ShortestPath/Chains.antt =====
-- The parent pointers of the search, and `reconstruct` (crates/graph/src/path.rs).
use dllb.Common.{
  ℕ, zero, suc, ◌≤◌, List, [], ◌∷◌, ◌++◌, Bytes, true, false, none, some, ◌≡◌, arith, length,
  length-append, All, All-append_left, All-append_right, beq_iff, ap, sym, ◌∙◌, append_assoc,
  append-nil,
}
use dllb.Common.Map.{Map, lookup, insert, lookup-insert}
use dllb.Graph.ShortestPath.{climb, reconstruct, is_visited}

-- The vertices that the parent pointers lead through, from the root to `v`.
pub data Chain (parent : Map Bytes) : Bytes → List Bytes → Type 0 where
  root : {v : Bytes} → lookup v parent ≡ none → Chain parent v (v ∷ [])
  link :
      {u v : Bytes} {path : List Bytes}
      → lookup v parent ≡ some u
      → Chain parent u path
      → Chain parent v (path ++ v ∷ [])

climb-Chain :
    (parent : Map Bytes) (v : Bytes) (path rest : List Bytes) (fuel : ℕ)
    → Chain parent v path
    → length path ≤ fuel
    → climb fuel parent v (v ∷ rest) ≡ some (path ++ rest)
unfolding climb
climb-Chain parent v path rest zero (root e) h = absurd (omega arith)
climb-Chain parent v path rest (suc fuel) (root e) h = rw (e, climb)
climb-Chain parent v whole rest zero (link {path = path} e c) h =
    absurd (omega (arith, length-append path (v ∷ [])))
climb-Chain parent v whole rest (suc fuel) (link {u} {path = path} e c) h =
    rw (e, climb)
      (climb-Chain parent u path (v ∷ rest) fuel c (omega (arith, length-append path (v ∷ [])))
        ∙ ap some (sym (append_assoc path (v ∷ []) rest)))

-- A chain is followed to its root, given fuel for its length.
pub reconstruct-Chain :
    (parent : Map Bytes) (v : Bytes) (path : List Bytes) (fuel : ℕ)
    → Chain parent v path
    → length path ≤ fuel
    → reconstruct fuel parent v ≡ some path
unfolding reconstruct
reconstruct-Chain parent v path fuel c h =
    climb-Chain parent v path [] fuel c h ∙ ap some (append-nil path)

abbrev pub AllVisited : List Bytes → List Bytes → Type 0
AllVisited visited = All (λ u. is_visited visited u ≡ true)

pub AllVisited-cons :
    (nb : Bytes) (visited path : List Bytes)
    → AllVisited visited path
    → AllVisited (nb ∷ visited) path
AllVisited-cons nb visited [] h = tt
AllVisited-cons nb visited (u ∷ path) h = (ground arith, AllVisited-cons nb visited path h.1)

-- the last vertex of a chain
Chain-visited :
    (parent : Map Bytes) (visited : List Bytes) (v : Bytes) (path : List Bytes)
    → Chain parent v path
    → AllVisited visited path
    → is_visited visited v ≡ true
Chain-visited parent visited v path (root e) h = h.0
Chain-visited parent visited v whole (link {path = path} e c) h =
    (All-append_right (λ u. is_visited visited u ≡ true) path (v ∷ []) h).0

-- A pointer of a vertex that was not visited leaves the chains of visited ones.
pub Chain-insert :
    (parent : Map Bytes) (visited : List Bytes) (nb node v : Bytes) (path : List Bytes)
    → is_visited visited nb ≡ false
    → Chain parent v path
    → AllVisited visited path
    → Chain (insert nb node parent) v path
Chain-insert parent visited nb node v path new (root e) h =
    root (ground (arith, lookup-insert v nb node parent, beq_iff nb v))
Chain-insert parent visited nb node v whole new (link {u} {path = path} e c) h =
    let here = Chain-visited parent visited v whole (link e c) h in
    link (ground (arith, lookup-insert v nb node parent, beq_iff nb v)) (
      Chain-insert parent visited nb node u path new c
        (All-append_left (λ u. is_visited visited u ≡ true) path (v ∷ []) h))
