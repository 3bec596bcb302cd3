-- ===== src/Graph/Neighbors.antt =====
-- The key-only scans of crates/graph/src/traverse.rs against the scans that read the edges.
use dllb.Common.{
  ℕ, ◌+◌, ◌<◌, List, [], ◌∷◌, ◌++◌, Bytes, true, Option, none, some, map, ◌≡◌, arith, inl, inr,
  Option-cases, append_assoc,
}
use dllb.Common.Order.{lex_le, lex_lt-append_left}
use dllb.Common.Map.{Map, range, keys}
use dllb.Common.Split.{splitn}
use dllb.Common.Utf8.{from_utf8}
use dllb.Core.{Result, ok, Result-cases}
use dllb.Storage.Key.{
  separator, segment, table_prefix, tag_graph_edge, dir_outgoing, dir_incoming,
  vertex_outgoing_prefix, vertex_incoming_prefix, vertex_outgoing_typed_prefix,
  vertex_incoming_typed_prefix,
}
use dllb.Storage.Key.Parse.{parse_key}
use dllb.Storage.Key.PrefixEnd.{prefix_end, prefix_end-append}
use dllb.Storage.Kv.{KvStore, IsKvStore, prefix_scan, map_results}
use dllb.Document.Serde.{FieldsCodec}
use dllb.Graph.Edge.{Edge, EdgeTable, deserialize_props, get}
use dllb.Graph.Traverse.{
  Direction, dir_out, dir_in, HopSpec, directed_type, directed_segments, parse_directed_remainder,
  other_segment, parse_other_vertex, next_vertex, outgoing_edge, scan_outgoing, outgoing,
  outgoing_typed, incoming_edge, scan_incoming, incoming, incoming_typed, neighbor, scan_neighbors,
  outgoing_neighbors, outgoing_neighbors_typed, incoming_neighbors, incoming_neighbors_typed,
  hop_edges,
}

other_segment-directed :
    (segs : List Bytes) (found : Bytes × Bytes)
    → directed_segments segs ≡ ok found
    → other_segment segs ≡ ok found.1
unfolding directed_segments directed_type other_segment
other_segment-directed [] found h = absurd (ground arith)
other_segment-directed (_ ∷ []) found h = absurd (ground arith)
other_segment-directed (_ ∷ _ ∷ []) found h = absurd (ground arith)
other_segment-directed (_ ∷ [] ∷ _ ∷ _) found h = absurd (ground arith)
other_segment-directed (_ ∷ (d ∷ ty) ∷ other ∷ _) found h = elim (Option-cases (from_utf8 ty)) [
  | inl e ↦ absurd (ground arith)
  | inr (t, e) ↦ elim (Option-cases (from_utf8 other)) [
    | inl f ↦ absurd (ground arith)
    | inr (o, f) ↦ ground arith
  ]
]

parse_other_vertex-directed :
    (r : Bytes) (found : Bytes × Bytes)
    → parse_directed_remainder r ≡ ok found
    → parse_other_vertex r ≡ ok found.1
unfolding parse_directed_remainder parse_other_vertex
parse_other_vertex-directed r found h = other_segment-directed (splitn 3 separator r) found h

-- Reading only the keys of what was read in full.
map_results-keys :
    (f : Bytes × Bytes → Result Edge) (g : Bytes → Result Bytes) (far : Edge → Bytes)
    → ((k v : Bytes) (e : Edge) → f (k, v) ≡ ok e → g k ≡ ok (far e))
    → (m : Map Bytes) (edges : List Edge) → map_results f m ≡ ok edges
    → map_results g (keys m) ≡ ok (map far edges)
unfolding map_results
map_results-keys f g far agree [] edges h = ground arith
map_results-keys f g far agree ((k, v) ∷ m) edges h = elim (Result-cases (f (k, v))) [
  | inr (x, e) ↦ absurd (ground arith)
  | inl (edge, e) ↦ elim (Result-cases (map_results f m)) [
    | inr (x, d) ↦ absurd (ground arith)
    | inl (rest, d) ↦ ground (arith, agree k v edge e, map_results-keys f g far agree m rest d)
  ]
]

prefix_end-above :
    (p : Bytes) (b : ℕ) → b < 255 → lex_le (p ++ b ∷ []) (prefix_end (p ++ b ∷ [])) ≡ true
prefix_end-above p b h =
    rw (prefix_end-append p b h) (ground (arith, lex_lt-append_left p ((b + 1) ∷ []) (b ∷ [])))

-- the prefix of a vertex, and those of its typed edges with their last byte in sight
vertex : EdgeTable → Bytes → Bytes
unfolding segment
vertex t v = segment (table_prefix t.ns t.db t.table tag_graph_edge) v

typed_out :
    (t : EdgeTable) (v ty : Bytes)
    → vertex_outgoing_typed_prefix t.ns t.db t.table v ty
      ≡ (vertex t v ++ dir_outgoing ∷ ty) ++ 0 ∷ []
unfolding vertex vertex_outgoing_typed_prefix
typed_out t v ty = simp append_assoc

typed_in :
    (t : EdgeTable) (v ty : Bytes)
    → vertex_incoming_typed_prefix t.ns t.db t.table v ty
      ≡ (vertex t v ++ dir_incoming ∷ ty) ++ 0 ∷ []
unfolding vertex vertex_incoming_typed_prefix
typed_in t v ty = simp append_assoc

module _ (kv : KvStore) (laws : IsKvStore kv) (codec : FieldsCodec) (t : EdgeTable) where
  open kv use {Store}
  open laws use {content, scan-eq, scan_prefix_keys-eq}

  neighbor-outgoing_edge :
      (src k v : Bytes) (e : Edge)
      → outgoing_edge kv codec t src (k, v) ≡ ok e
      → neighbor kv codec t k ≡ ok e.dst
  unfolding outgoing_edge neighbor
  neighbor-outgoing_edge src k v e h = elim (Result-cases (parse_key k)) [
    | inr (x, a) ↦ absurd (ground arith)
    | inl (p, a) ↦ elim (Result-cases (parse_directed_remainder p.remainder)) [
      | inr (x, b) ↦ absurd (ground arith)
      | inl (found, b) ↦ elim (Result-cases (deserialize_props codec v)) [
        | inr (x, d) ↦ absurd (ground arith)
        | inl (props, d) ↦ ground (arith, parse_other_vertex-directed p.remainder found b)
      ]
    ]
  ]

  neighbor-incoming_edge :
      (s : Store) (dst k v : Bytes) (e : Edge)
      → incoming_edge kv codec t s dst (k, v) ≡ ok e
      → neighbor kv codec t k ≡ ok e.src
  unfolding incoming_edge neighbor
  neighbor-incoming_edge s dst k v e h = elim (Result-cases (parse_key k)) [
    | inr (x, a) ↦ absurd (ground arith)
    | inl (p, a) ↦ elim (Result-cases (parse_directed_remainder p.remainder)) [
      | inr (x, b) ↦ absurd (ground arith)
      | inl (found, b) ↦ elim (Result-cases (get kv codec t s found.1 found.0 dst)) [
        | inr (x, d) ↦ absurd (ground arith)
        | inl (stored, d) ↦ ground (arith, parse_other_vertex-directed p.remainder found b)
      ]
    ]
  ]

  module _ (s : Store) (p : Bytes) (b : ℕ) (low : b < 255) where
    entries : Map Bytes
    entries = range (p ++ b ∷ []) (prefix_end (p ++ b ∷ [])) (content s)

    prefix_scan-eq : prefix_scan kv s (p ++ b ∷ []) ≡ ok entries
    unfolding prefix_scan entries
    prefix_scan-eq = scan-eq s _ _ (prefix_end-above p b low)

    scan_prefix-eq : kv.scan_prefix_keys s (p ++ b ∷ []) ≡ ok (keys entries)
    unfolding entries
    scan_prefix-eq = scan_prefix_keys-eq s _ (prefix_end-above p b low)

    scan_neighbors-scan_outgoing :
        (src : Bytes) (edges : List Edge)
        → scan_outgoing kv codec t s src (p ++ b ∷ []) ≡ ok edges
        → scan_neighbors kv codec t s (p ++ b ∷ []) ≡ ok (map (next_vertex dir_out) edges)
    unfolding scan_outgoing scan_neighbors next_vertex
    scan_neighbors-scan_outgoing src edges h = ground (
      arith,
      prefix_scan-eq,
      scan_prefix-eq,
      map_results-keys (outgoing_edge kv codec t src) (neighbor kv codec t) (λ e. e.dst)
          (neighbor-outgoing_edge src) entries edges,
    )

    scan_neighbors-scan_incoming :
        (dst : Bytes) (edges : List Edge)
        → scan_incoming kv codec t s dst (p ++ b ∷ []) ≡ ok edges
        → scan_neighbors kv codec t s (p ++ b ∷ []) ≡ ok (map (next_vertex dir_in) edges)
    unfolding scan_incoming scan_neighbors next_vertex
    scan_neighbors-scan_incoming dst edges h = ground (
      arith,
      prefix_scan-eq,
      scan_prefix-eq,
      map_results-keys (incoming_edge kv codec t s dst) (neighbor kv codec t) (λ e. e.src)
          (neighbor-incoming_edge s dst) entries edges,
    )

  -- the neighbours along one hop
  unfoldable pub hop_neighbors : Store → HopSpec → Bytes → Result (List Bytes)
  hop_neighbors s hop current = elim hop.direction [
    | dir_out ↦ elim hop.edge_type [
      | some ty ↦ outgoing_neighbors_typed kv codec t s current ty
      | none ↦ outgoing_neighbors kv codec t s current
    ]
    | dir_in ↦ elim hop.edge_type [
      | some ty ↦ incoming_neighbors_typed kv codec t s current ty
      | none ↦ incoming_neighbors kv codec t s current
    ]
  ]

  by_direction :
      (s : Store) (direction : Direction) (edge_type : Option Bytes) (v : Bytes) (edges : List Edge)
      → hop_edges kv codec t s (record { direction = direction; edge_type = edge_type }) v
        ≡ ok edges
      → hop_neighbors s (record { direction = direction; edge_type = edge_type }) v
        ≡ ok (map (next_vertex direction) edges)
  unfolding hop_edges hop_neighbors vertex outgoing outgoing_typed incoming incoming_typed
      outgoing_neighbors outgoing_neighbors_typed incoming_neighbors incoming_neighbors_typed
      vertex_outgoing_prefix vertex_incoming_prefix
  by_direction s dir_out none v edges h =
      scan_neighbors-scan_outgoing s (vertex t v) dir_outgoing (omega arith) v edges h
  by_direction s dir_out (some ty) v edges h = rw (typed_out t v ty) (
      scan_neighbors-scan_outgoing s (vertex t v ++ dir_outgoing ∷ ty) 0 (omega arith) v edges
        (rw (typed_out t v ty) at h))
  by_direction s dir_in none v edges h =
      scan_neighbors-scan_incoming s (vertex t v) dir_incoming (omega arith) v edges h
  by_direction s dir_in (some ty) v edges h = rw (typed_in t v ty) (
      scan_neighbors-scan_incoming s (vertex t v ++ dir_incoming ∷ ty) 0 (omega arith) v edges
        (rw (typed_in t v ty) at h))

  -- Over a store that keeps the contract of `KvStore`: where a hop returns edges, the key-only
  -- scan of the same direction and type returns the far ends of these edges, in the same order.
  pub hop_neighbors-hop_edges :
      (s : Store) (hop : HopSpec) (current : Bytes) (edges : List Edge)
      → hop_edges kv codec t s hop current ≡ ok edges
      → hop_neighbors s hop current ≡ ok (map (next_vertex hop.direction) edges)
  hop_neighbors-hop_edges s hop v edges h = by_direction s hop.direction hop.edge_type v edges h
