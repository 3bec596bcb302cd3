-- ===== src/Storage/Key/Parse.antt =====
-- `KeyParts` and `parse_key` of crates/storage/src/key.rs.
use dllb.Common.{
  ◌↔◌, inl, inr, ℕ, List, [], ◌∷◌, ◌++◌, Bytes, contains, ◌≡◌, false, arith, append_assoc, ◌∙◌, sym,
}
use dllb.Common.Split.{splitn, split_once-append, split_once_cases}
use dllb.Core.{
  Result, ok, err, storage, missing_namespace, missing_database, missing_table, missing_tag,
  empty_after_table,
}
use dllb.Storage.Key.{separator, table_prefix}

pub record KeyParts : Type 0 where
  pub namespace : Bytes
  pub database : Bytes
  pub table : Bytes
  pub tag : ℕ
  pub remainder : Bytes

-- the calls of `parts.next()`
unfoldable pub key_parts : List Bytes → Result KeyParts
key_parts [] = err (storage missing_namespace)
key_parts (ns ∷ []) = err (storage missing_database)
key_parts (ns ∷ db ∷ []) = err (storage missing_table)
key_parts (ns ∷ db ∷ table ∷ []) = err (storage missing_tag)
key_parts (ns ∷ db ∷ table ∷ [] ∷ _) = err (storage empty_after_table)
key_parts (ns ∷ db ∷ table ∷ (t ∷ rest) ∷ _) =
    ok (record { namespace = ns; database = db; table = table; tag = t; remainder = rest })

unfoldable pub parse_key : Bytes → Result KeyParts
unfolding key_parts splitn
parse_key key = key_parts (splitn 4 separator key)

-- A segment can be read back exactly when it has no separator.
abbrev pub IsSegment : Bytes → Type 0
IsSegment s = contains s separator ≡ false

abbrev pub IsScope : Bytes → Bytes → Bytes → Type 0
IsScope ns db table = IsSegment ns × IsSegment db × IsSegment table

-- The key with the parts `p`.
abbrev pub unparse : KeyParts → Bytes
unparse p = table_prefix p.namespace p.database p.table p.tag ++ p.remainder

pub table_prefix-append :
    (ns db table rest : Bytes) (t : ℕ)
    → table_prefix ns db table t ++ rest ≡ ns ++ 0 ∷ (db ++ 0 ∷ (table ++ 0 ∷ (t ∷ rest)))
unfolding table_prefix
table_prefix-append ns db table rest t = simp append_assoc

pub parse_key-table_prefix :
    (ns db table rest : Bytes) (t : ℕ)
    → IsScope ns db table
    → parse_key (table_prefix ns db table t ++ rest)
      ≡ ok (record { namespace = ns; database = db; table = table; tag = t; remainder = rest })
unfolding parse_key
parse_key-table_prefix ns db table rest t h = rw table_prefix-append (
    ground (
      arith,
      split_once-append 0 ns (db ++ 0 ∷ (table ++ 0 ∷ (t ∷ rest))),
      split_once-append 0 db (table ++ 0 ∷ (t ∷ rest)),
      split_once-append 0 table (t ∷ rest),
    ))

abbrev Layout : Bytes → KeyParts → Type 0
Layout key p =
    IsScope p.namespace p.database p.table
    × (key ≡ p.namespace ++ 0 ∷ (p.database ++ 0 ∷ (p.table ++ 0 ∷ (p.tag ∷ p.remainder))))

parse_key-Layout : (key : Bytes) (p : KeyParts) → parse_key key ≡ ok p → Layout key p
unfolding parse_key
parse_key-Layout key p h = elim (split_once_cases 0 key) [
  | inl e ↦ absurd (ground arith)
  | inr (ns, r, e, n1, s1) ↦ elim (split_once_cases 0 r) [
    | inl f ↦ absurd (ground arith)
    | inr (db, r', f, n2, s2) ↦ elim (split_once_cases 0 r') [
      | inl g ↦ absurd (ground arith)
      | inr (table, r'', g, n3, s3) ↦ ground arith
    ]
  ]
]

-- A key parses to some parts exactly when its namespace, database and table have no separator
-- and it is the key that the builder makes of the parts.
pub parse_key_iff :
    (key : Bytes) (p : KeyParts)
    → (parse_key key ≡ ok p) ↔ (IsScope p.namespace p.database p.table × (key ≡ unparse p))
parse_key_iff key p = (
  λ h.
      let (scope, layout) = parse_key-Layout key p h in
      (scope, layout ∙ sym (table_prefix-append p.namespace p.database p.table p.remainder p.tag)),
  λ (scope, e).
      rw e (parse_key-table_prefix p.namespace p.database p.table p.remainder p.tag scope),
)
