-- ===== src/Examples/Edges.antt =====
-- The edge store on a store in memory.
use dllb.Common.{[], ◌∷◌, Bytes, none, some, ◌≡◌, refl, map}
use dllb.Common.Map.{Map}
use dllb.Common.Map
use dllb.Core.{Value, ok}
use dllb.Storage.Backend
use dllb.Storage.Key
use dllb.Storage.Kv
use dllb.Storage.Kv.{contains}
use dllb.Storage.Key.PrefixEnd.{prefix_end}
use dllb.Storage.Key.Parse.{parse_key, key_parts}
use dllb.Common.Split.{splitn, split_once}
use dllb.Common.Utf8.{is_utf8}
use dllb.Graph.Edge.{
  Edge, EdgeTable, out_key, relate, get, delete, serialize_props, deserialize_props,
}
use dllb.Graph.Entries.{IsMirrored}
use dllb.Graph.Mirror.{stay, then_relate, get-relate, Steps-IsMirrored, get-delete_edge}
use dllb.Graph.Traverse.{
  HopSpec, dir_out, next_vertex, hop_edges, outgoing, scan_outgoing, outgoing_edge,
  parse_directed_remainder, directed_segments, directed_type,
}
use dllb.Graph.Neighbors.{hop_neighbors, hop_neighbors-hop_edges}
use dllb.Examples.Memory.{memory_store, memory_laws, memory_content}
use dllb.Examples.Codec.{small_codec, small_codec-IsCodec}

abbrev edges_table : EdgeTable
edges_table = record { ns = b'n' ∷ []; db = b'd' ∷ []; table = b't' ∷ [] }

abbrev a_knows_b : Edge
a_knows_b = record {
  src = b'a' ∷ [];
  edge_type = b'k' ∷ [];
  dst = b'b' ∷ [];
  properties = (b's' ∷ [], Value.string (b'x' ∷ [])) ∷ [];
}

abbrev related : Map Bytes
related = (relate memory_store small_codec edges_table a_knows_b []).1

abbrev any_out : HopSpec
any_out = record { direction = dir_out; edge_type = none }

edges_test :
    ((relate memory_store small_codec edges_table a_knows_b []).0 ≡ ok tt)
    × (hop_edges memory_store small_codec edges_table related any_out (b'a' ∷ [])
        ≡ ok (a_knows_b ∷ []))
unfolding relate serialize_props deserialize_props Key.graph_outgoing_key Key.graph_incoming_key
    Key.vertex_outgoing_prefix Backend.put_batch Backend.transact Backend.stage Backend.finish
    Backend.insert_each Backend.scan Backend.collect Backend.read_table Map.insert Map.range
    hop_edges outgoing scan_outgoing outgoing_edge Kv.prefix_scan Kv.map_results
    parse_directed_remainder directed_segments directed_type prefix_end parse_key key_parts splitn
    split_once is_utf8
edges_test = (refl, refl)

get-relate_example :
    get memory_store small_codec edges_table related (b'a' ∷ []) (b'k' ∷ []) (b'b' ∷ [])
    ≡ ok (some a_knows_b)
get-relate_example =
    get-relate memory_store memory_laws small_codec edges_table (refl, refl, refl)
      small_codec-IsCodec [] a_knows_b (refl, refl, refl) edges_test.0

Steps-IsMirrored_example : IsMirrored edges_table (memory_laws.content related)
Steps-IsMirrored_example =
    Steps-IsMirrored memory_store memory_laws small_codec edges_table (refl, refl, refl) [] related
      (then_relate a_knows_b (refl, refl, refl) stay) (λ x. rw memory_content refl)

get-delete_edge_example :
    ((delete memory_store small_codec edges_table (b'a' ∷ []) (b'k' ∷ []) (b'b' ∷ []) related).0
      ≡ contains memory_store related (out_key edges_table (b'a' ∷ []) (b'k' ∷ []) (b'b' ∷ [])))
    × (get memory_store small_codec edges_table
          (delete memory_store small_codec edges_table
            (b'a' ∷ [])
            (b'k' ∷ [])
            (b'b' ∷ [])
            related).1
          (b'a' ∷ [])
          (b'k' ∷ [])
          (b'b' ∷ [])
        ≡ ok none)
get-delete_edge_example =
    get-delete_edge memory_store memory_laws small_codec edges_table (refl, refl, refl) related
      (b'a' ∷ []) (b'k' ∷ []) (b'b' ∷ []) (refl, refl, refl)

hop_neighbors-hop_edges_example :
    hop_neighbors memory_store memory_laws small_codec edges_table related any_out (b'a' ∷ [])
    ≡ ok (map (next_vertex dir_out) (a_knows_b ∷ []))
hop_neighbors-hop_edges_example =
    hop_neighbors-hop_edges memory_store memory_laws small_codec edges_table related any_out
      (b'a' ∷ []) (a_knows_b ∷ []) edges_test.1
