-- ===== src/Lib.antt =====
-- dllb: a multi-model database (documents, graph, vectors, full text) over the key-value library redb.
--
-- The parts and how they interact. The storage part lays out every key as
-- `namespace 0 database 0 table 0 tag ...` and offers an ordered map of byte strings, `KvStore`, which
-- the backend implements by transactions of redb. A collection keeps documents under the document tag
-- and the entries of their indexes under the index tag, and writes both in one batch. The edge store
-- keeps two entries for an edge under the edge tag, and the traversal reads them by prefix scans. The
-- query executor runs statements on these, and keeps the responses of graph statements in a cache,
-- under the version of the edge table, which a relate increments.
--
-- What models what:
--   Common      lists, byte strings and their order, signed integers, UTF-8, ordered maps, splitting:
--               what the program uses of Rust's library
--   Core        crates/core/src: value.rs, record_id.rs, schema.rs, error.rs
--   Storage.Key             crates/storage/src/key.rs: the builders; Parse, PrefixEnd and Region are
--                           about parse_key, prefix_end and the layout as a whole
--   Storage.Kv              crates/storage/src/kv.rs: the trait as a record of operations, and the
--                           contract IsKvStore that its documentation states
--   Storage.Redb            the calls of redb, a parameter, and the behaviour redb documents
--   Storage.Backend         crates/storage/src/backend.rs: Atomic (writes), Reads, Implements
--   Document.Record         crates/document/src/document.rs
--   Document.Validate       crates/document/src/validate.rs
--   Document.Encoding       crates/document/src/index.rs, the encoding of values: Words (integers and
--                           floats), Escape, Parts (tuples and ids), Order
--   Document.Index          crates/document/src/index.rs, the rest: Scan (bounds), Lookup (find_ids),
--                           Exact (whole tuples)
--   Document.Serde          crates/document/src/serde.rs over a codec, a parameter
--   Document.Collection     crates/document/src/collection.rs: Plans, ReadBack, Frame, Unique,
--                           Whole (over the backend), Upsert, Indexed
--   Graph.Edge              crates/graph/src/edge.rs and store.rs: Entries, Mirror
--   Graph.Traverse          crates/graph/src/traverse.rs: Neighbors
--   Graph.ShortestPath      crates/graph/src/path.rs: Trails (what is to be found), Chains (parent
--                           pointers), Levels (the queue), Frontier, Round, Correct
--   Graph.Components        crates/graph/src/components.rs, the union-find: Forest (chains of parents),
--                           Find, Joins (what the trees stand for), Attach, Partition, Classes
--   Graph.Components.Labels   crates/graph/src/components.rs, labels and groups: Interning, Groups,
--                           Vertices, Correct
--   Storage.Actor           crates/storage/src/actor.rs: Serve (a mailbox)
--   Query.Ast               crates/query/src/ast.rs
--   Query.Tokens, Query.Tokenizer   crates/query/src/tokenizer.rs: Total, Spelling (the texts of
--                           tokens), Words, Reads, RoundTrip
--   Query.Cache             crates/query/src/cache.rs: Keys, Lru (the calls of the `lru` library, a
--                           parameter, and the behaviour it documents), Bounds, Insert, Read
--   Query.Executor          crates/query/src/executor.rs, `run` with its cache: Keys, Answers (what
--                           may be answered), Fresh, Run, Correct
--   Examples    a redb and an `lru` in memory and a small codec, tests, and the theorems at concrete inputs
--
-- How the code is translated. A function keeps its name. A method that writes takes the store and
-- returns its result beside the new store; what it reads and computes before its one write is a
-- function of the store (`create_ops`, `update_ops`, `delete_keys`). `?` is the bind of `Result`. Loops
-- are structural recursion, but for five, which take fuel: the search for a shortest path has one
-- round more than there are edges and vertices to take from the queue, `reconstruct` as many as
-- vertices were visited, a `find` of the union-find as many as there are edges, the eviction loop of
-- the cache as many as there are entries, and the tokenizer as many as the input has chars; theorems
-- show that these are enough. A String is its bytes, but its chars in the tokenizer; a float is its
-- bits; a vertex of the union-find is its dense index. A `BTreeMap` is a list of entries in the order
-- of their keys, which `insert` keeps, and a `HashMap` too where it is looked up only. The texts of
-- errors are constructors of `Message` with what is put into them. The `debug_assert!` of
-- `KeyBuilder::segment` is not part of a release build: theorems ask for segments without a
-- separator where it matters.
--
-- Parameters: redb (Storage.Redb), `lru` (Query.Cache), MessagePack (FieldsCodec, DefinitionCodec),
-- the cast of an integer to a float in `scan_all_outgoing`, `f64::from_str`, and, of `run`, the
-- handlers of the statements with `format_result`, of which nothing is asked but that the texts that
-- are stored have less than 2 ^ 63 - 128 bytes.
--
-- Not modelled: the storage handle (crates/storage/src/db.rs), which passes calls on; locks and
-- threads, a method that takes a lock being one step; JSON in serde.rs; random record ids; the
-- algorithms of crates/graph that are not named above, most of which compute on floats; the
-- parser, the handlers of the executor and the formats of crates/query; crates/search and
-- crates/vector, which call libraries and compute on floats; crates/code-intel; the programs of
-- crates/server and crates/cli; the empty crates/transaction.
pub mod Common
pub mod Core
pub mod Storage
pub mod Document
pub mod Graph
pub mod Query
pub mod Examples
