-- ===== src/Query/Ast.antt =====
-- crates/query/src/ast.rs: the abstract syntax. A statement's fields are the arguments of its
-- constructor, in the order of the source; a float is its bit pattern.
use dllb.Common.{ℕ, List, Bool, Bytes, Option}
use dllb.Common.Int.{ℤ}
use dllb.Core.Values.{Value, Values, nil, cons}

pub data OutcomeFormat : Type 0 where
  json toon csv : OutcomeFormat

mutual
  pub data Literal : Type 0 where
    string : Bytes → Literal
    int : ℤ → Literal
    float : ℕ → Literal
    bool : Bool → Literal
    none : Literal
    array : Literals → Literal

  pub data Literals : Type 0 where
    no_literals : Literals
    more_literals : Literal → Literals → Literals

unfoldable mutual
  pub to_value : Literal → Value
  to_value (string s) = Value.string s
  to_value (int n) = Value.int n
  to_value (float f) = Value.float f
  to_value (bool b) = Value.bool b
  to_value Literal.none = Value.none
  to_value (array items) = Value.array (to_values items)

  pub to_values : Literals → Values
  to_values no_literals = nil
  to_values (more_literals item items) = cons (to_value item) (to_values items)

mutual
  pub data SelectItem : Type 0 where
    field_item : Bytes → SelectItem
    literal_item : Literal → SelectItem
    function_call : Bytes → SelectItems → SelectItem

  pub data SelectItems : Type 0 where
    no_items : SelectItems
    more_items : SelectItem → SelectItems → SelectItems

pub record RecordRef : Type 0 where
  pub table : Bytes
  pub id : Bytes

pub data FromTarget : Type 0 where
  from_table : Bytes → FromTarget
  from_record : RecordRef → FromTarget

pub data CmpOp : Type 0 where
  eq ne gt lt gte lte : CmpOp

pub data WhereClause : Type 0 where
  cmp : SelectItem → CmpOp → Literal → WhereClause
  and : WhereClause → WhereClause → WhereClause
  is_null : Bytes → Bool → WhereClause

pub data TraversalDirection : Type 0 where
  hop_out hop_in : TraversalDirection

pub record TraversalHop : Type 0 where
  pub direction : TraversalDirection
  pub edge_type : Bytes
  pub dest_table : Bytes

pub record TraversalChain : Type 0 where
  pub hops : List TraversalHop
  pub projection : Option Bytes

pub data SelectFields : Type 0 where
  all_fields : SelectFields
  named_fields : List SelectItem → SelectFields
  traversal : TraversalChain → SelectFields

pub record OrderKey : Type 0 where
  pub field : Bytes
  pub descending : Bool

pub data CentralityMode : Type 0 where
  degree in_degree out_degree : CentralityMode

pub data CommunityAlgorithm : Type 0 where
  louvain label_propagation : CommunityAlgorithm

-- `update_set` is `ON CONFLICT UPDATE SET`
pub data OnConflict : Type 0 where
  update_fields : OnConflict
  update_set : List (Bytes × Literal) → OnConflict

pub data Statement : Type 0 where
  create : Bytes → Option Bytes → List (Bytes × Literal) → Option OnConflict → Statement
  select : SelectFields → FromTarget → Option WhereClause → List OrderKey → Option ℕ → Statement
  delete : Bytes → Bytes → Statement
  delete_where : Bytes → Option WhereClause → Statement
  relate : RecordRef → Bytes → RecordRef → List (Bytes × Literal) → Statement
  graph_communities : Bytes → CommunityAlgorithm → ℕ → ℕ → Statement
  update : FromTarget → List (Bytes × Literal) → Option WhereClause → Statement
  count : Bytes → Option WhereClause → Option Bytes → Statement
  graph_components : Bytes → Statement
  define_index : Bytes → Bytes → List Bytes → Bool → Statement
  remove_index : Bytes → Bytes → Statement
  compact : Statement
  define_fulltext_index : Bytes → Bytes → Bytes → Option Bytes → Statement
  define_vector_index : Bytes → Bytes → Bytes → ℕ → Option Bytes → Statement
  search : Bytes → Bytes → Bytes → Option WhereClause → Option ℕ → Statement
  vector_search : Bytes → Bytes → List ℕ → Option WhereClause → Option ℕ → Statement
  hybrid_search :
      Bytes → Bytes → Bytes → Bytes → List ℕ → Option ℕ → Option WhereClause → Option ℕ → Statement
  graph_pagerank : Bytes → ℕ → ℕ → Option ℕ → Statement
  graph_centrality : Bytes → CentralityMode → Option ℕ → Statement
  graph_path : Bytes → Bytes → Bytes → Option ℕ → Statement
  graph_edges : Bytes → Option WhereClause → Statement

pub record Query : Type 0 where
  pub statement : Statement
  pub outcome : OutcomeFormat
