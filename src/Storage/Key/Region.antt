-- ===== src/Storage/Key/Region.antt =====
-- The regions of the keyspace: what a prefix selects, and that no two entries share a key.
use dllb.Common.{
  ℕ, [], ◌∷◌, ◌++◌, Bytes, true, ◌==◌, if◌then◌else◌, ◌≡◌, refl, arith, Option, none, some,
  starts_with, starts_with-append, starts_with_split, ◌↔◌, append_assoc, append-nil, ap, sym,
}
use dllb.Common.Split.{split_once, split_once-append}
use dllb.Storage.Key.{
  table_prefix, document_key, graph_outgoing_key, graph_incoming_key, metadata_key, index_prefix,
  index_catalog_key, tag_metadata, tag_document, tag_index, tag_graph_edge, dir_incoming,
  dir_outgoing,
}
use dllb.Storage.Key.Parse.{KeyParts, parse_key, IsSegment, IsScope, parse_key-table_prefix}

-- Where the names have no separator, a key of one table and tag starts with the prefix of
-- another exactly when the namespace, the database, the table and the tag are the same.
pub starts_with-table_prefix :
    (p q : KeyParts)
    → IsScope p.namespace p.database p.table
    → IsScope q.namespace q.database q.table
    → (starts_with
          (table_prefix p.namespace p.database p.table p.tag ++ p.remainder)
          (table_prefix q.namespace q.database q.table q.tag)
        ≡ true)
      ↔ ((p.namespace ≡ q.namespace)
          × (p.database ≡ q.database)
          × (p.table ≡ q.table)
          × (p.tag ≡ q.tag))
starts_with-table_prefix p q hp hq = (
  λ h.
      let (rest, e) =
        starts_with_split (table_prefix p.namespace p.database p.table p.tag ++ p.remainder)
          (table_prefix q.namespace q.database q.table q.tag) h in
      let parsed_p = parse_key-table_prefix p.namespace p.database p.table p.remainder p.tag hp in
      let parsed_q = parse_key-table_prefix q.namespace q.database q.table rest q.tag hq in
      ground (arith, parsed_p, parsed_q, ap parse_key e),
  λ same.
      ground
        (arith, starts_with-append (table_prefix q.namespace q.database q.table q.tag) p.remainder),
)

-- What the entries of one table stand for. `indexed` has the bytes behind an index's name: the
-- encoded values and the record id.
pub data Entry : Type 0 where
  document : Bytes → Entry
  outgoing incoming : Bytes → Bytes → Bytes → Entry
  indexed : Bytes → Bytes → Entry
  metadata : Entry
  index_catalog : Bytes → Entry

module _ (ns db table : Bytes) where
  unfoldable pub encode : Entry → Bytes
  unfolding document_key graph_outgoing_key graph_incoming_key metadata_key index_prefix
      index_catalog_key
  encode (document id) = document_key ns db table id
  encode (outgoing src edge_type dst) = graph_outgoing_key ns db table src edge_type dst
  encode (incoming dst edge_type src) = graph_incoming_key ns db table dst edge_type src
  encode (indexed name rest) = index_prefix ns db table name ++ rest
  encode metadata = metadata_key ns db table
  encode (index_catalog name) = index_catalog_key ns db table name

-- The segments that the builder writes in front of a separator have none.
abbrev pub IsClean : Entry → Type 0
IsClean (document id) = Unit
IsClean (outgoing src edge_type dst) = IsSegment src × IsSegment edge_type
IsClean (incoming dst edge_type src) = IsSegment dst × IsSegment edge_type
IsClean (indexed name rest) = IsSegment name
IsClean metadata = Unit
IsClean (index_catalog name) = Unit

-- the tag and the remainder of an entry's key
abbrev tag_of : Entry → ℕ
tag_of (document _) = tag_document
tag_of (outgoing _ _ _) = tag_graph_edge
tag_of (incoming _ _ _) = tag_graph_edge
tag_of (indexed _ _) = tag_index
tag_of metadata = tag_metadata
tag_of (index_catalog _) = tag_metadata

abbrev remainder_of : Entry → Bytes
remainder_of (document id) = id
remainder_of (outgoing a t b) = a ++ 0 ∷ ((dir_outgoing ∷ t) ++ 0 ∷ b)
remainder_of (incoming a t b) = a ++ 0 ∷ ((dir_incoming ∷ t) ++ 0 ∷ b)
remainder_of (indexed name rest) = name ++ 0 ∷ rest
remainder_of metadata = []
remainder_of (index_catalog name) = b'i' ∷ b'd' ∷ b'x' ∷ 0 ∷ name

pub encode_layout :
    (ns db table : Bytes) (k : Entry)
    → encode ns db table k ≡ table_prefix ns db table (tag_of k) ++ remainder_of k
unfolding encode
encode_layout ns db table (document id) = refl
encode_layout ns db table (outgoing a t b) = simp append_assoc
encode_layout ns db table (incoming a t b) = simp append_assoc
encode_layout ns db table (indexed name rest) = simp append_assoc
encode_layout ns db table metadata = sym (append-nil _)
encode_layout ns db table (index_catalog name) = simp append_assoc

-- reading an entry back
edge_of : ℕ → Bytes → Bytes → Bytes → Option Entry
edge_of d a t b = if d == dir_outgoing then some (outgoing a t b) else some (incoming a t b)

edge_parts : Bytes → Option (Bytes × Bytes) → Option Entry
edge_parts a none = none
edge_parts a (some ([], b)) = none
edge_parts a (some (d ∷ t, b)) = edge_of d a t b

edge_rest : Option (Bytes × Bytes) → Option Entry
edge_rest none = none
edge_rest (some (a, rest)) = edge_parts a (split_once 0 rest)

index_rest : Option (Bytes × Bytes) → Option Entry
index_rest none = none
index_rest (some (name, rest)) = some (indexed name rest)

metadata_rest : Option (Bytes × Bytes) → Option Entry
metadata_rest none = some metadata
metadata_rest (some (_, name)) = some (index_catalog name)

decode : KeyParts → Option Entry
unfolding edge_of edge_parts edge_rest index_rest metadata_rest
decode p =
    if p.tag == tag_document
    then some (document p.remainder)
    else if p.tag == tag_graph_edge
    then edge_rest (split_once 0 p.remainder)
    else if p.tag == tag_index
    then index_rest (split_once 0 p.remainder)
    else metadata_rest (split_once 0 p.remainder)

abbrev parts_of : Bytes → Bytes → Bytes → Entry → KeyParts
parts_of ns db table k = record {
  namespace = ns;
  database = db;
  table = table;
  tag = tag_of k;
  remainder = remainder_of k;
}

decode-parts_of :
    (ns db table : Bytes) (k : Entry) → IsClean k → decode (parts_of ns db table k) ≡ some k
unfolding decode
decode-parts_of ns db table (document id) h = refl
decode-parts_of ns db table (outgoing a t b) h = ground (
  arith,
  split_once-append 0 a ((dir_outgoing ∷ t) ++ 0 ∷ b),
  split_once-append 0 (dir_outgoing ∷ t) b,
)
decode-parts_of ns db table (incoming a t b) h = ground (
  arith,
  split_once-append 0 a ((dir_incoming ∷ t) ++ 0 ∷ b),
  split_once-append 0 (dir_incoming ∷ t) b,
)
decode-parts_of ns db table (indexed name rest) h = ground (arith, split_once-append 0 name rest)
decode-parts_of ns db table metadata h = unfold split_once in refl
decode-parts_of ns db table (index_catalog name) h =
    ground (arith, split_once-append 0 (b'i' ∷ b'd' ∷ b'x' ∷ []) name)

-- Where the segments that the builder writes have no separator, equal keys are of the same
-- namespace, database and table and of the same entry: a document, an edge in one direction, an
-- index entry, the metadata or a catalog entry.
pub encode-injective :
    (ns db table ns' db' table' : Bytes) (j k : Entry)
    → IsScope ns db table
    → IsScope ns' db' table'
    → IsClean j
    → IsClean k
    → encode ns db table j ≡ encode ns' db' table' k
    → (ns ≡ ns') × (db ≡ db') × (table ≡ table') × (j ≡ k)
encode-injective ns db table ns' db' table' j k s s' cj ck e = ground (
  arith,
  encode_layout ns db table j,
  encode_layout ns' db' table' k,
  parse_key-table_prefix ns db table (remainder_of j) (tag_of j) s,
  parse_key-table_prefix ns' db' table' (remainder_of k) (tag_of k) s',
  decode-parts_of ns db table j cj,
  decode-parts_of ns' db' table' k ck,
)
