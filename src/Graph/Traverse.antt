-- ===== src/Graph/Traverse.antt =====
-- crates/graph/src/traverse.rs: one hop along the edges of a vertex, and walks of several hops.
use dllb.Common.{List, [], ◌∷◌, ◌++◌, Bytes, Bool, Option, none, some, map, keep}
use dllb.Common.Map.{Map}
use dllb.Common.Split.{splitn}
use dllb.Common.Utf8.{from_utf8}
use dllb.Core.{
  Value, Result, ok, err, ◌>>=◌, ok_or, storage, missing_edge_type, missing_other_vertex,
  empty_dir_and_type, invalid_utf8,
}
use dllb.Storage.Key.{
  separator, vertex_outgoing_prefix, vertex_incoming_prefix, vertex_outgoing_typed_prefix,
  vertex_incoming_typed_prefix,
}
use dllb.Storage.Key.Parse.{parse_key}
use dllb.Storage.Kv.{KvStore, prefix_scan, map_results}
use dllb.Document.Serde.{FieldsCodec}
use dllb.Graph.Edge.{Edge, EdgeTable, deserialize_props, get}

pub data Direction : Type 0 where
  dir_out dir_in : Direction

pub record HopSpec : Type 0 where
  pub direction : Direction
  pub edge_type : Option Bytes

-- the direction byte, then the edge type
unfoldable pub directed_type : Bytes → Bytes → Result (Bytes × Bytes)
directed_type [] other = err (storage empty_dir_and_type)
directed_type (d ∷ ty) other = do
  edge_type ← ok_or (from_utf8 ty) (storage invalid_utf8)
  other_vertex ← ok_or (from_utf8 other) (storage invalid_utf8)
  ok (edge_type, other_vertex)

-- the calls of `parts.next()`
unfoldable pub directed_segments : List Bytes → Result (Bytes × Bytes)
directed_segments (_ ∷ dir_and_type ∷ other ∷ _) = directed_type dir_and_type other
directed_segments (_ ∷ _ ∷ []) = err (storage missing_other_vertex)
directed_segments _ = err (storage missing_edge_type)

unfoldable pub parse_directed_remainder : Bytes → Result (Bytes × Bytes)
parse_directed_remainder remainder = directed_segments (splitn 3 separator remainder)

unfoldable pub other_segment : List Bytes → Result Bytes
other_segment (_ ∷ _ ∷ other ∷ _) = ok_or (from_utf8 other) (storage invalid_utf8)
other_segment _ = err (storage missing_other_vertex)

unfoldable pub parse_other_vertex : Bytes → Result Bytes
parse_other_vertex remainder = other_segment (splitn 3 separator remainder)

-- the properties of an edge that may be missing
abbrev properties_of : Option Edge → Map Value
properties_of none = []
properties_of (some e) = e.properties

-- the end of an edge that a hop arrives at
unfoldable pub next_vertex : Direction → Edge → Bytes
next_vertex dir_out e = e.dst
next_vertex dir_in e = e.src

-- `path.last().unwrap()`, of a path that begins with `start`
unfoldable pub last : Bytes → List Bytes → Bytes
last start [] = start
last start (v ∷ path) = last v path

module _ (kv : KvStore) (codec : FieldsCodec) (t : EdgeTable) where
  open kv use {Store, scan_prefix_keys}

  unfoldable pub outgoing_edge : Bytes → Bytes × Bytes → Result Edge
  outgoing_edge src (k, v) = do
    p ← parse_key k
    found ← parse_directed_remainder p.remainder
    properties ← deserialize_props codec v
    ok (record { src = src; edge_type = found.0; dst = found.1; properties = properties })

  unfoldable pub scan_outgoing : Store → Bytes → Bytes → Result (List Edge)
  scan_outgoing s src prefix = do
    entries ← prefix_scan kv s prefix
    map_results (outgoing_edge src) entries

  unfoldable pub outgoing : Store → Bytes → Result (List Edge)
  outgoing s src = scan_outgoing s src (vertex_outgoing_prefix t.ns t.db t.table src)

  unfoldable pub outgoing_typed : Store → Bytes → Bytes → Result (List Edge)
  outgoing_typed s src edge_type =
      scan_outgoing s src (vertex_outgoing_typed_prefix t.ns t.db t.table src edge_type)

  unfoldable pub outgoing_filtered : Store → Bytes → (Edge → Bool) → Result (List Edge)
  outgoing_filtered s src filter = do edges ← outgoing s src; ok (keep filter edges)

  unfoldable pub incoming_edge : Store → Bytes → Bytes × Bytes → Result Edge
  incoming_edge s dst (k, _) = do
    p ← parse_key k
    found ← parse_directed_remainder p.remainder
    stored ← get kv codec t s found.1 found.0 dst
    ok (record { src = found.1; edge_type = found.0; dst = dst; properties = properties_of stored })

  unfoldable pub scan_incoming : Store → Bytes → Bytes → Result (List Edge)
  scan_incoming s dst prefix = do
    entries ← prefix_scan kv s prefix
    map_results (incoming_edge s dst) entries

  unfoldable pub incoming : Store → Bytes → Result (List Edge)
  incoming s dst = scan_incoming s dst (vertex_incoming_prefix t.ns t.db t.table dst)

  unfoldable pub incoming_typed : Store → Bytes → Bytes → Result (List Edge)
  incoming_typed s dst edge_type =
      scan_incoming s dst (vertex_incoming_typed_prefix t.ns t.db t.table dst edge_type)

  unfoldable pub neighbor : Bytes → Result Bytes
  neighbor k = do p ← parse_key k; parse_other_vertex p.remainder

  unfoldable pub scan_neighbors : Store → Bytes → Result (List Bytes)
  scan_neighbors s prefix = do ks ← scan_prefix_keys s prefix; map_results neighbor ks

  unfoldable pub outgoing_neighbors : Store → Bytes → Result (List Bytes)
  outgoing_neighbors s src = scan_neighbors s (vertex_outgoing_prefix t.ns t.db t.table src)

  unfoldable pub outgoing_neighbors_typed : Store → Bytes → Bytes → Result (List Bytes)
  outgoing_neighbors_typed s src edge_type =
      scan_neighbors s (vertex_outgoing_typed_prefix t.ns t.db t.table src edge_type)

  unfoldable pub incoming_neighbors : Store → Bytes → Result (List Bytes)
  incoming_neighbors s dst = scan_neighbors s (vertex_incoming_prefix t.ns t.db t.table dst)

  unfoldable pub incoming_neighbors_typed : Store → Bytes → Bytes → Result (List Bytes)
  incoming_neighbors_typed s dst edge_type =
      scan_neighbors s (vertex_incoming_typed_prefix t.ns t.db t.table dst edge_type)

  unfoldable pub hop_edges : Store → HopSpec → Bytes → Result (List Edge)
  hop_edges s hop current = elim hop.direction [
    | dir_out ↦ elim hop.edge_type [
      | some ty ↦ outgoing_typed s current ty
      | none ↦ outgoing s current
    ]
    | dir_in ↦ elim hop.edge_type [
      | some ty ↦ incoming_typed s current ty
      | none ↦ incoming s current
    ]
  ]

  -- the paths of one hop from each path of `paths`; a path is its start and what follows
  unfoldable pub hop_paths :
      Store → HopSpec → Bytes → List (List Bytes) → Result (List (List Bytes))
  hop_paths s hop start [] = ok []
  hop_paths s hop start (path ∷ paths) = do
    edges ← hop_edges s hop (last start path)
    next_paths ← hop_paths s hop start paths
    ok (map (λ e. path ++ next_vertex hop.direction e ∷ []) edges ++ next_paths)

  unfoldable pub walk_from :
      Store → Bytes → List HopSpec → List (List Bytes) → Result (List (List Bytes))
  walk_from s start [] paths = ok paths
  walk_from s start (hop ∷ hops) paths = do
    next_paths ← hop_paths s hop start paths
    walk_from s start hops next_paths

  unfoldable pub walk : Store → Bytes → List HopSpec → Result (List (List Bytes))
  walk s start hops = do
    paths ← walk_from s start hops ([] ∷ [])
    ok (map (λ path. start ∷ path) paths)
