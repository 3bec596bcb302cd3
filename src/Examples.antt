-- ===== src/Examples.antt =====
-- The theorems at concrete inputs, and tests of the definitions.
mod Memory
mod Codec
mod Keys
mod Stores
mod Encodings
mod Lookups
mod Documents
mod Edges
mod Graphs
mod LruMemory
mod Caches
mod Texts
