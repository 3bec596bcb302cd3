-- ===== src/Graph.antt =====
-- crates/graph/src: edges, their store and their traversal.
pub mod Edge
pub mod Traverse
pub mod Entries
pub mod Mirror
pub mod Neighbors
pub mod ShortestPath
pub mod Components
