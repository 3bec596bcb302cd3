-- ===== src/Examples/Graphs.antt =====
-- The shortest path and the components at concrete graphs.
use dllb.Common.{ℕ, [], ◌∷◌, List, Bytes, none, some, ◌≡◌, refl}
use dllb.Common.Map.{Map, insert}
use dllb.Graph.ShortestPath.{shortest_path, found, not_found}
use dllb.Graph.ShortestPath.Trails.{Answer}
use dllb.Graph.Components.{
  at, set, find, link, union, unite, indices_from, zeros, partition, roots_of, component_roots,
}
use dllb.Graph.Components.Labels.{
  connected_components, intern_all, intern, groups_of, group_from, sort_all, sorted, put_sorted,
  label_at, members_of, edge_indices, index_of,
}
use dllb.Graph.Components.Labels.Correct.{ArePartition, connected_components_correct}
use dllb.Graph.ShortestPath.Correct.{shortest_path_correct}

-- a triangle with a detour
abbrev some_edges : List (Bytes × Bytes)
some_edges =
    (b'a' ∷ [], b'b' ∷ [])
    ∷ (b'b' ∷ [], b'c' ∷ [])
    ∷ (b'c' ∷ [], b'a' ∷ [])
    ∷ (b'c' ∷ [], b'd' ∷ [])
    ∷ (b'a' ∷ [], b'c' ∷ [])
    ∷ []

shortest_path_test :
    (shortest_path some_edges (b'a' ∷ []) (b'd' ∷ []) (some 2)
      ≡ found ((b'a' ∷ []) ∷ (b'c' ∷ []) ∷ (b'd' ∷ []) ∷ []))
    × (shortest_path some_edges (b'a' ∷ []) (b'd' ∷ []) (some 1) ≡ not_found)
    × (shortest_path some_edges (b'd' ∷ []) (b'a' ∷ []) none ≡ not_found)
unfolding shortest_path insert
shortest_path_test = (refl, refl, refl)

shortest_path_correct_example :
    Answer some_edges
      (b'a' ∷ [])
      (b'd' ∷ [])
      (some 2)
      (shortest_path some_edges (b'a' ∷ []) (b'd' ∷ []) (some 2))
shortest_path_correct_example = shortest_path_correct some_edges (b'a' ∷ []) (b'd' ∷ []) (some 2)

-- two components of three vertices and a vertex alone
abbrev some_pairs : List (ℕ × ℕ)
some_pairs = (0, 1) ∷ (4, 3) ∷ (2, 1) ∷ (5, 4) ∷ (1, 0) ∷ []

component_roots_test : component_roots 7 some_pairs ≡ some (0 ∷ 0 ∷ 0 ∷ 4 ∷ 4 ∷ 4 ∷ 6 ∷ [])
unfolding component_roots partition unite union find at indices_from link zeros set roots_of
component_roots_test = refl

abbrev some_links : List (Bytes × Bytes)
some_links =
    (b'a' ∷ [], b'b' ∷ [])
    ∷ (b'y' ∷ [], b'x' ∷ [])
    ∷ (b'c' ∷ [], b'b' ∷ [])
    ∷ (b'z' ∷ [], b'z' ∷ [])
    ∷ []

connected_components_test :
    connected_components some_links
    ≡ some (
        (b'a' ∷ [], (b'a' ∷ []) ∷ (b'b' ∷ []) ∷ (b'c' ∷ []) ∷ [])
        ∷ (b'y' ∷ [], (b'x' ∷ []) ∷ (b'y' ∷ []) ∷ [])
        ∷ (b'z' ∷ [], (b'z' ∷ []) ∷ [])
        ∷ [])
unfolding connected_components intern_all intern groups_of group_from sort_all sorted put_sorted
    label_at members_of edge_indices index_of insert component_roots partition unite union find at
    indices_from link zeros set roots_of
connected_components_test = refl

connected_components_correct_example :
    (groups : Map (List Bytes)) × (connected_components some_links ≡ some groups)
    × ArePartition some_links groups
connected_components_correct_example = connected_components_correct some_links
