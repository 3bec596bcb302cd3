-- ===== src/Graph/Edge.antt =====
-- crates/graph/src/edge.rs and store.rs: edges, and the store of the edges of one table. An edge is
-- two entries: the outgoing one has the properties, the incoming one points back.
use dllb.Common.{
  ℕ, List, [], ◌∷◌, Bytes, Bool, true, false, Option, none, some, ◌==◌, if◌then◌else◌,
}
use dllb.Common.Int.{ℤ}
use dllb.Common.Map.{Map, lookup, insert}
use dllb.Common.Split.{splitn}
use dllb.Common.Utf8.{from_utf8}
use dllb.Core.{
  Value, float, int, Result, ok, err, ◌>>=◌, Attempt, done, failed, or_serialization, not_found,
  edge_not_found,
}
use dllb.Storage.Key.{
  separator, dir_outgoing, tag_graph_edge, table_prefix, graph_outgoing_key, graph_incoming_key,
}
use dllb.Storage.Key.Parse.{parse_key}
use dllb.Storage.Kv.{KvStore, contains, prefix_scan}
use dllb.Document.Serde.{FieldsCodec}

pub record Edge : Type 0 where
  pub src : Bytes
  pub edge_type : Bytes
  pub dst : Bytes
  pub properties : Map Value

-- `Edge::new`
abbrev pub new_edge : Bytes → Bytes → Bytes → Edge
new_edge src edge_type dst = record { src = src; edge_type = edge_type; dst = dst; properties = [] }

unfoldable pub with_property : Bytes → Value → Edge → Edge
with_property name value e = record e { properties = insert name value e.properties }

-- `EdgeStore` without its storage, which the operations take
pub record EdgeTable : Type 0 where
  pub ns : Bytes
  pub db : Bytes
  pub table : Bytes

-- no properties are no bytes
unfoldable pub serialize_props : FieldsCodec → Map Value → Result Bytes
serialize_props codec [] = ok []
serialize_props codec (p ∷ props) = or_serialization (codec.to_vec (p ∷ props))

unfoldable pub deserialize_props : FieldsCodec → Bytes → Result (Map Value)
deserialize_props codec [] = ok []
deserialize_props codec (b ∷ bytes) = or_serialization (codec.from_slice (b ∷ bytes))

-- the three segments of the remainder of an outgoing key, or none where a scan skips the entry
unfoldable pub dir_and_type : Bytes → Bytes → Bytes → Option (Bytes × Bytes × Bytes)
dir_and_type src [] dst = none
dir_and_type src (d ∷ edge_type) dst =
    if d == dir_outgoing then some (src, edge_type, dst) else none

unfoldable pub outgoing_segments : List Bytes → Option (Bytes × Bytes × Bytes)
outgoing_segments (src ∷ dir_type ∷ dst ∷ _) = dir_and_type src dir_type dst
outgoing_segments _ = none

unfoldable pub outgoing_parts : Bytes → Option (Bytes × Bytes × Bytes)
outgoing_parts remainder = outgoing_segments (splitn 3 separator remainder)

-- an element that is `continue`d over leaves no trace
unfoldable pub push_some : {A : Type 0} → Option A → List A → List A
push_some none rest = rest
push_some (some a) rest = a ∷ rest

unfoldable pub filter_results : {A B : Type 0} → (A → Result (Option B)) → List A → Result (List B)
filter_results f [] = ok []
filter_results f (a ∷ as') = do found ← f a; rest ← filter_results f as'; ok (push_some found rest)

-- the bits of 1.0
abbrev one_f64 : ℕ
one_f64 = 0x3ff0000000000000

-- `int_as_f64` is the cast `as f64`
unfoldable pub weight_of : (int_as_f64 : ℤ → ℕ) → Option Value → ℕ
weight_of int_as_f64 (some (float f)) = f
weight_of int_as_f64 (some (int n)) = int_as_f64 n
weight_of int_as_f64 _ = one_f64

-- `unwrap_or_default`
abbrev or_default : Attempt (Map Value) → Map Value
or_default (done props) = props
or_default (failed _) = []

unfoldable pub weight : FieldsCodec → (ℤ → ℕ) → Bytes → ℕ
weight codec int_as_f64 [] = one_f64
weight codec int_as_f64 (b ∷ v) =
    weight_of int_as_f64 (
      lookup (b'w' ∷ b'e' ∷ b'i' ∷ b'g' ∷ b'h' ∷ b't' ∷ []) (or_default (codec.from_slice (b ∷ v))))

-- the ends of an edge that a scan of the table reads from its key
unfoldable pub utf8_ends : Option (Bytes × Bytes × Bytes) → Option (Bytes × Bytes)
utf8_ends none = none
utf8_ends (some (src, _, dst)) = elim (from_utf8 src) [
  | none ↦ none
  | some a ↦ elim (from_utf8 dst) [ none ↦ none | some b ↦ some (a, b) ]
]

unfoldable pub utf8_triple : Option (Bytes × Bytes × Bytes) → Option (Bytes × Bytes × Bytes)
utf8_triple none = none
utf8_triple (some (src, edge_type, dst)) = elim (from_utf8 src) [
  | none ↦ none
  | some a ↦ elim (from_utf8 edge_type) [
    | none ↦ none
    | some t ↦ elim (from_utf8 dst) [ none ↦ none | some b ↦ some (a, t, b) ]
  ]
]

module _ (t : EdgeTable) where
  abbrev pub out_key : Bytes → Bytes → Bytes → Bytes
  out_key = graph_outgoing_key t.ns t.db t.table

  abbrev pub in_key : Bytes → Bytes → Bytes → Bytes
  in_key = graph_incoming_key t.ns t.db t.table

module _ (kv : KvStore) (codec : FieldsCodec) (t : EdgeTable) where
  open kv use {Store, put, put_batch, delete_batch, scan_prefix_keys}

  unfoldable pub relate_to_ops : Edge → Result (Map Bytes)
  relate_to_ops e = do
    props ← serialize_props codec e.properties
    ok ((out_key t e.src e.edge_type e.dst, props) ∷ (in_key t e.dst e.edge_type e.src, []) ∷ [])

  unfoldable pub relate : Edge → Store → Result (Unit {0}) × Store
  relate e s = elim (serialize_props codec e.properties) [
    | err x ↦ (err x, s)
    | ok props ↦
        put_batch
          ((out_key t e.src e.edge_type e.dst, props) ∷ (in_key t e.dst e.edge_type e.src, []) ∷ [])
          s
  ]

  unfoldable pub get : Store → Bytes → Bytes → Bytes → Result (Option Edge)
  get s src edge_type dst = do
    found ← kv.get s (out_key t src edge_type dst)
    elim found [
      | none ↦ ok none
      | some bytes ↦ (do
        properties ← deserialize_props codec bytes
        ok (some (record { src = src; edge_type = edge_type; dst = dst; properties = properties })))
    ]

  unfoldable pub delete : Bytes → Bytes → Bytes → Store → Result Bool × Store
  delete src edge_type dst s = elim (contains kv s (out_key t src edge_type dst)) [
    | err x ↦ (err x, s)
    | ok false ↦ (ok false, s)
    | ok true ↦
        let (outcome, s') =
          delete_batch (out_key t src edge_type dst ∷ in_key t dst edge_type src ∷ []) s in
        (outcome >>= λ _. ok true, s')
  ]

  unfoldable pub update_properties :
      Bytes → Bytes → Bytes → Map Value → Store → Result (Unit {0}) × Store
  update_properties src edge_type dst props s = elim (contains kv s (out_key t src edge_type dst)) [
    | err x ↦ (err x, s)
    | ok false ↦ (err (not_found (edge_not_found src edge_type dst)), s)
    | ok true ↦ elim (serialize_props codec props) [
      | err x ↦ (err x, s)
      | ok bytes ↦ put (out_key t src edge_type dst) bytes s
    ]
  ]

  unfoldable pub weighted_ends : (ℤ → ℕ) → Bytes × Bytes → Result (Option (Bytes × Bytes × ℕ))
  weighted_ends int_as_f64 (k, v) = do
    p ← parse_key k
    elim (utf8_ends (outgoing_parts p.remainder)) [
      | none ↦ ok none
      | some (a, b) ↦ ok (some (a, b, weight codec int_as_f64 v))
    ]

  unfoldable pub scan_all_outgoing : (ℤ → ℕ) → Store → Result (List (Bytes × Bytes × ℕ))
  scan_all_outgoing int_as_f64 s = do
    entries ← prefix_scan kv s (table_prefix t.ns t.db t.table tag_graph_edge)
    filter_results (weighted_ends int_as_f64) entries

  unfoldable pub ends : Bytes → Result (Option (Bytes × Bytes))
  ends k = do p ← parse_key k; ok (utf8_ends (outgoing_parts p.remainder))

  unfoldable pub scan_all_edges : Store → Result (List (Bytes × Bytes))
  scan_all_edges s = do
    ks ← scan_prefix_keys s (table_prefix t.ns t.db t.table tag_graph_edge)
    filter_results ends ks

  unfoldable pub edge_of_entry : Bytes × Bytes → Result (Option Edge)
  edge_of_entry (k, v) = do
    p ← parse_key k
    elim (utf8_triple (outgoing_parts p.remainder)) [
      | none ↦ ok none
      | some (a, ty, b) ↦ (do
        properties ← deserialize_props codec v
        ok (some (record { src = a; edge_type = ty; dst = b; properties = properties })))
    ]

  unfoldable pub scan_all_outgoing_edges : Store → Result (List Edge)
  scan_all_outgoing_edges s = do
    entries ← prefix_scan kv s (table_prefix t.ns t.db t.table tag_graph_edge)
    filter_results edge_of_entry entries
