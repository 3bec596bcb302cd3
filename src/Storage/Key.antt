-- ===== src/Storage/Key.antt =====
-- crates/storage/src/key.rs: the layout of every key of the store. The builder's methods take the
-- key first; `Parse` reads keys back, `PrefixEnd` is about prefix scans, `Region` about all keys together.
pub mod Parse
pub mod PrefixEnd
pub mod Region
use dllb.Common.{ℕ, List, [], ◌∷◌, ◌++◌, Bytes, contains, if◌then◌else◌}
use dllb.Core.{Result, ok, err, other, nul_in_segment}

-- mod tag
abbrev pub tag_metadata : ℕ
tag_metadata = b'!'

abbrev pub tag_document : ℕ
tag_document = b'*'

abbrev pub tag_index : ℕ
tag_index = b'+'

abbrev pub tag_graph_edge : ℕ
tag_graph_edge = b'~'

abbrev pub separator : ℕ
separator = 0

-- mod dir
abbrev pub dir_incoming : ℕ
dir_incoming = b'<'

abbrev pub dir_outgoing : ℕ
dir_outgoing = b'>'

-- KeyBuilder: the buffer is the key so far. The `debug_assert!` in `segment` is not part of a
-- release build; where it matters the theorems ask for segments without a separator.
abbrev pub empty_key : Bytes
empty_key = []

unfoldable pub segment : Bytes → Bytes → Bytes
segment buf part = buf ++ part ++ separator ∷ []

unfoldable pub tag : Bytes → ℕ → Bytes
tag buf t = buf ++ t ∷ []

unfoldable pub raw : Bytes → Bytes → Bytes
raw buf part = buf ++ part

-- `KeyBuilder::new().namespace(ns).database(db).table(table).tag(t)`
unfoldable pub table_prefix : Bytes → Bytes → Bytes → ℕ → Bytes
unfolding segment tag
table_prefix ns db table t = tag (segment (segment (segment empty_key ns) db) table) t

module _ (ns db table : Bytes) where
  unfoldable pub document_key : Bytes → Bytes
  unfolding table_prefix raw
  document_key id = raw (table_prefix ns db table tag_document) id

  unfoldable pub graph_outgoing_key : Bytes → Bytes → Bytes → Bytes
  unfolding table_prefix raw segment
  graph_outgoing_key src edge_type dst =
      raw
        (segment (segment (table_prefix ns db table tag_graph_edge) src) (dir_outgoing ∷ edge_type))
        dst

  unfoldable pub graph_incoming_key : Bytes → Bytes → Bytes → Bytes
  unfolding table_prefix raw segment
  graph_incoming_key dst edge_type src =
      raw
        (segment (segment (table_prefix ns db table tag_graph_edge) dst) (dir_incoming ∷ edge_type))
        src

  unfoldable pub graph_edge_key : Bytes → Bytes → Bytes → Bytes
  unfolding graph_outgoing_key
  graph_edge_key = graph_outgoing_key

  unfoldable pub vertex_outgoing_prefix : Bytes → Bytes
  unfolding table_prefix raw segment
  vertex_outgoing_prefix vertex_id =
      raw (segment (table_prefix ns db table tag_graph_edge) vertex_id) (dir_outgoing ∷ [])

  unfoldable pub vertex_incoming_prefix : Bytes → Bytes
  unfolding table_prefix raw segment
  vertex_incoming_prefix vertex_id =
      raw (segment (table_prefix ns db table tag_graph_edge) vertex_id) (dir_incoming ∷ [])

  unfoldable pub vertex_outgoing_typed_prefix : Bytes → Bytes → Bytes
  unfolding table_prefix segment
  vertex_outgoing_typed_prefix vertex_id edge_type =
      segment (segment (table_prefix ns db table tag_graph_edge) vertex_id)
        (dir_outgoing ∷ edge_type)

  unfoldable pub vertex_incoming_typed_prefix : Bytes → Bytes → Bytes
  unfolding table_prefix segment
  vertex_incoming_typed_prefix vertex_id edge_type =
      segment (segment (table_prefix ns db table tag_graph_edge) vertex_id)
        (dir_incoming ∷ edge_type)

  unfoldable pub index_key : Bytes → Bytes → Bytes → Bytes
  unfolding table_prefix raw segment
  index_key index_name field_val id =
      raw (segment (segment (table_prefix ns db table tag_index) index_name) field_val) id

  unfoldable pub metadata_key : Bytes
  unfolding table_prefix
  metadata_key = table_prefix ns db table tag_metadata

  unfoldable pub index_catalog_prefix : Bytes
  unfolding table_prefix segment
  index_catalog_prefix = segment (table_prefix ns db table tag_metadata) (b'i' ∷ b'd' ∷ b'x' ∷ [])

  unfoldable pub index_catalog_key : Bytes → Bytes
  unfolding table_prefix segment raw
  index_catalog_key index_name =
      raw (segment (table_prefix ns db table tag_metadata) (b'i' ∷ b'd' ∷ b'x' ∷ [])) index_name

  unfoldable pub index_prefix : Bytes → Bytes
  unfolding table_prefix segment
  index_prefix index_name = segment (table_prefix ns db table tag_index) index_name

unfoldable pub validate_segment : Bytes → Result (Unit {0})
validate_segment s = if contains s separator then err (other (nul_in_segment s)) else ok tt
