-- ===== src/Graph/Components/Labels.antt =====
-- `connected_components` of crates/graph/src/components.rs: labels become dense indices, and the
-- vertices are grouped by the label of their root. A HashMap is a list of entries in the order of
-- their keys; the order does not matter where it is looked up.
pub mod Interning
pub mod Groups
pub mod Vertices
pub mod Correct
use dllb.Common.{
  ℕ, zero, suc, ◌+◌, ◌<◌, List, [], ◌∷◌, ◌++◌, Bytes, Bool, true, false, Option, none, some, ◌≡◌,
  refl, arith, length, Bool-cases, Option-cases, ◌==◌, beq, beq_iff, beq_refl, inl, inr, ◌⊎◌, ap,
  sym, ◌∙◌, if◌then◌else◌, length-append, Member,
}
use dllb.Common.Map.{Map, lookup, insert, contains_key, lookup-insert}
use dllb.Common.Order.{lex_lt}
use dllb.Graph.Components.{component_roots}

-- `index` and `labels`
pub record Interned : Type 0 where
  pub index : Map ℕ
  pub labels : List Bytes

unfoldable pub intern : Bytes → Interned → Interned
intern id s =
    if contains_key id s.index
    then s
    else record { index = insert id (length s.labels) s.index; labels = s.labels ++ id ∷ [] }

-- the loop that interns both ends of each edge
unfoldable pub intern_all : List (Bytes × Bytes) → Interned → Interned
intern_all [] s = s
intern_all ((src, dst) ∷ edges) s = intern_all edges (intern dst (intern src s))

abbrev pub nothing_interned : Interned
nothing_interned = record { index = []; labels = [] }

-- `index[id]`, which the program would panic at where it is missing
unfoldable pub index_of : Map ℕ → Bytes → ℕ
index_of index id = elim (lookup id index) [ none ↦ 0 | some i ↦ i ]

unfoldable pub edge_indices : Map ℕ → List (Bytes × Bytes) → List (ℕ × ℕ)
edge_indices index [] = []
edge_indices index ((src, dst) ∷ edges) =
    (index_of index src, index_of index dst) ∷ edge_indices index edges

-- `labels[i]`
unfoldable pub label_at : List Bytes → ℕ → Bytes
label_at [] i = []
label_at (l ∷ ls) zero = l
label_at (l ∷ ls) (suc i) = label_at ls i

unfoldable pub members_of : Bytes → Map (List Bytes) → List Bytes
members_of root groups = elim (lookup root groups) [ none ↦ [] | some members ↦ members ]

-- the loop over the roots of the vertices from `i` on
unfoldable pub group_from : List Bytes → ℕ → List ℕ → Map (List Bytes) → Map (List Bytes)
group_from labels i [] groups = groups
group_from labels i (root ∷ roots) groups = group_from labels (suc i) roots (
    insert (label_at labels root)
      (members_of (label_at labels root) groups ++ label_at labels i ∷ []) groups)

-- `members.sort()`
unfoldable pub put_sorted : Bytes → List Bytes → List Bytes
put_sorted a [] = a ∷ []
put_sorted a (b ∷ bs) = if lex_lt b a then b ∷ put_sorted a bs else a ∷ b ∷ bs

unfoldable pub sorted : List Bytes → List Bytes
sorted [] = []
sorted (a ∷ rest) = put_sorted a (sorted rest)

unfoldable pub sort_all : Map (List Bytes) → Map (List Bytes)
sort_all [] = []
sort_all ((root, members) ∷ groups) = (root, sorted members) ∷ sort_all groups

-- the groups by the roots, where these were found
unfoldable pub groups_of : List Bytes → Option (List ℕ) → Option (Map (List Bytes))
groups_of labels none = none
groups_of labels (some roots) = some (sort_all (group_from labels 0 roots []))

unfoldable pub connected_components : List (Bytes × Bytes) → Option (Map (List Bytes))
connected_components edges =
    let s = intern_all edges nothing_interned in
    if length s.labels == 0
    then some []
    else groups_of s.labels (component_roots (length s.labels) (edge_indices s.index edges))
