-- ===== src/Graph/ShortestPath/Trails.antt =====
-- Trails along the edges of a graph, and the adjacency that `shortest_path` builds
-- (crates/graph/src/path.rs).
use dllb.Common.{
  ℕ, suc, ◌≤◌, List, [], ◌∷◌, ◌++◌, Bytes, Option, none, some, ◌≡◌, refl, arith, length,
  length-append, ◌<◌, Member, Member-append, inl, inr, ◌⊎◌, ◌↔◌, beq, beq_iff, Bool-cases, ap,
}
use dllb.Common.Map.{Map, lookup, insert, lookup-insert}
use dllb.Graph.ShortestPath.{or_empty, adjacency_from, adjacency, Outcome, found, not_found}

-- the paths from `src`, with the vertex that each leads to
pub data Trail (edges : List (Bytes × Bytes)) (src : Bytes) : List Bytes → Bytes → Type 0 where
  source : Trail edges src (src ∷ []) src
  extend :
      {path : List Bytes} {u v : Bytes}
      → Trail edges src path u
      → Member (u, v) edges
      → Trail edges src (path ++ v ∷ []) v

pub Trail-nonempty :
    (edges : List (Bytes × Bytes)) (src v : Bytes) (path : List Bytes)
    → Trail edges src path v
    → 0 < length path
Trail-nonempty edges src v path (source) = omega arith
Trail-nonempty edges src v whole (extend {path = path} t e) =
    omega (arith, length-append path (v ∷ []))

-- as many edges as the budget allows
abbrev pub Within : Option ℕ → ℕ → Type 0
Within none n = Unit
Within (some m) n = n ≤ m

-- What is to be returned: a shortest path, or nothing where no path keeps to the budget.
pub data Answer (edges : List (Bytes × Bytes)) (src dst : Bytes) (max_depth : Option ℕ)
    : Outcome → Type 0 where
  shortest :
      (path : List Bytes) (n : ℕ)
      → Trail edges src path dst
      → length path ≡ suc n
      → Within max_depth n
      → ((other : List Bytes) → Trail edges src other dst → length path ≤ length other)
      → Answer edges src dst max_depth (found path)
  unreachable :
      ((path : List Bytes) (n : ℕ)
        → Trail edges src path dst
        → length path ≡ suc n
        → ¬ Within max_depth n)
      → Answer edges src dst max_depth not_found

module _ (s d u v : Bytes) (adj : Map (List Bytes)) where
  abbrev with_edge : Map (List Bytes)
  with_edge = insert s (or_empty (lookup s adj) ++ d ∷ []) adj

  with_edge_lem :
      Member v (or_empty (lookup u with_edge))
      ↔ (Member v (or_empty (lookup u adj)) ⊎ ◌≡◌ {A = Bytes × Bytes} (u, v) (s, d))
  with_edge_lem = elim (Bool-cases (beq s u)) [
    | inr f ↦
        rw (lookup-insert u s (or_empty (lookup s adj) ++ d ∷ []) adj)
          (rw f (inl, λ h. elim h [ inl m ↦ m | inr e ↦ absurd (ground (arith, beq_iff s u)) ]))
    | inl t ↦
        let same : s ≡ u = (beq_iff s u).0 t in
        rw (lookup-insert u s (or_empty (lookup s adj) ++ d ∷ []) adj) (
          rw t (
            rw same (
              λ m. elim ((Member-append v (or_empty (lookup u adj)) (d ∷ [])).0 m) [
                | inl l ↦ inl l
                | inr r ↦ elim r [ inl e ↦ inr (rw e refl) | inr no_more ↦ absurd no_more ]
              ],
              λ h. (Member-append v (or_empty (lookup u adj)) (d ∷ [])).1 (elim h [
                | inl m ↦ inl m
                | inr e ↦ inr (inl (ap (λ (x : Bytes × Bytes). x.1) e))
              ]),
            )))
  ]

adjacency_from_lem :
    (edges : List (Bytes × Bytes)) (adj : Map (List Bytes)) (u v : Bytes)
    → Member v (or_empty (lookup u (adjacency_from adj edges)))
      ↔ (Member v (or_empty (lookup u adj)) ⊎ Member (u, v) edges)
unfolding adjacency_from
adjacency_from_lem [] adj u v = (inl, λ h. elim h [ inl m ↦ m | inr m ↦ absurd m ])
adjacency_from_lem ((s, d) ∷ edges) adj u v =
    let ih = adjacency_from_lem edges (with_edge s d u v adj) u v in
    let one = with_edge_lem s d u v adj in
    (
      λ m. elim (ih.0 m) [
        | inl l ↦ elim (one.0 l) [ inl old ↦ inl old | inr e ↦ inr (inl e) ]
        | inr later ↦ inr (inr later)
      ],
      λ h. ih.1 (elim h [
        | inl old ↦ inl (one.1 (inl old))
        | inr m ↦ elim m [ inl e ↦ inl (one.1 (inr e)) | inr later ↦ inr later ]
      ]),
    )

-- The neighbors of a vertex are the ends of its edges.
pub Member-adjacency :
    (edges : List (Bytes × Bytes)) (u v : Bytes)
    → Member v (or_empty (lookup u (adjacency edges))) ↔ Member (u, v) edges
Member-adjacency edges u v =
    let both = adjacency_from_lem edges [] u v in
    (λ m. elim (both.0 m) [ inl none_yet ↦ absurd none_yet | inr e ↦ e ], λ e. both.1 (inr e))
