-- ===== src/Graph/Components/Labels/Correct.antt =====
-- `connected_components` of crates/graph/src/components.rs as a whole.
use dllb.Common.{
  ℕ, ◌+◌, ◌<◌, List, [], ◌∷◌, Bytes, true, false, some, ◌≡◌, refl, arith, length, Bool-cases, ◌==◌,
  inl, inr, ◌↔◌, ap, sym, ◌∙◌, Member,
}
use dllb.Common.Map.{Map, lookup}
use dllb.Graph.Components.{at, component_roots}
use dllb.Graph.Components.Joins.{Joined, back, then_on}
use dllb.Graph.Components.Partition.{AreIndices}
use dllb.Graph.Components.Classes.{component_roots_correct}
use dllb.Graph.Components.Labels.{
  index_of, edge_indices, label_at, members_of, group_from, sort_all, groups_of,
  connected_components,
}
use dllb.Graph.Components.Labels.Interning.{some-injective}
use dllb.Graph.Components.Labels.Groups.{Placed, Member-groups}
use dllb.Graph.Components.Labels.Vertices.{
  IsEndpoint, Joined-indices, interned, kept, Known, Known-left, Known-right, Known-IsEndpoint,
  Joined-labels,
}

-- one of the groups has both
abbrev pub InOneGroup : Map (List Bytes) → Bytes → Bytes → Type 0
InOneGroup groups a b =
    (root : Bytes) × Member a (members_of root groups) × Member b (members_of root groups)

-- The groups are the connected components, each vertex stands in one group, and the key of a group is
-- the label of a vertex that is connected to all of it.
pub record ArePartition (edges : List (Bytes × Bytes)) (groups : Map (List Bytes)) : Type 0 where
  pub together :
      (a b : Bytes)
      → IsEndpoint edges a
      → IsEndpoint edges b
      → InOneGroup groups a b ↔ Joined edges a b
  pub once :
      (r q a : Bytes) → Member a (members_of r groups) → Member a (members_of q groups) → r ≡ q
  pub named : (r a : Bytes) → Member a (members_of r groups) → Joined edges a r

module _ (edges : List (Bytes × Bytes)) (roots : List ℕ)
    (size : length roots ≡ length (interned edges).labels)
    (to_root : (i : ℕ)
      → i < length (interned edges).labels
      → Joined (edge_indices (interned edges).index edges) i (at roots i)) where
  Joined-Placed : (r a : Bytes) → Placed (interned edges).labels 0 roots r a → Joined edges a r
  Joined-Placed r a (j, less, e, f) =
      let first : 0 + j ≡ j = omega arith in
      let all = Joined-labels edges j (at roots j) (to_root j (omega (arith, size))) in
      rw (sym e) (rw (sym f) (rw first all))

  Placed-unique :
      (r q a : Bytes)
      → Placed (interned edges).labels 0 roots r a
      → Placed (interned edges).labels 0 roots q a
      → r ≡ q
  Placed-unique r q a (i, less, e, f) (j, less', e', f') =
      let at_i : 0 + i ≡ i = omega arith in
      let at_j : 0 + j ≡ j = omega arith in
      let found_i : lookup a (interned edges).index ≡ some i =
        rw (sym f) (rw at_i ((kept edges).found i (omega (arith, size)))) in
      let found_j : lookup a (interned edges).index ≡ some j =
        rw (sym f') (rw at_j ((kept edges).found j (omega (arith, size)))) in
      let same : i ≡ j = some-injective i j (sym found_i ∙ found_j) in
      sym e ∙ (ap (λ z. label_at (interned edges).labels (at roots z)) same ∙ e')

  placed :
      (a : Bytes)
      → Known (interned edges) a
      → Placed
          (interned edges).labels
          0
          roots
          (label_at (interned edges).labels (at roots (index_of (interned edges).index a)))
          a
  placed a known =
      let first : 0 + index_of (interned edges).index a ≡ index_of (interned edges).index a =
        omega arith in
      let inside = known.inside in
      (
        index_of (interned edges).index a,
        omega (arith, size, inside),
        refl,
        rw first known.labelled,
      )

  grouped :
      ((i j : ℕ)
        → i < length (interned edges).labels
        → j < length (interned edges).labels
        → (at roots i ≡ at roots j) ↔ Joined (edge_indices (interned edges).index edges) i j)
      → (a b : Bytes) → Known (interned edges) a
      → Known (interned edges) b
      → InOneGroup (sort_all (group_from (interned edges).labels 0 roots [])) a b ↔ Joined edges a b
  grouped classes a b known_a known_b =
      let i = index_of (interned edges).index a in
      let j = index_of (interned edges).index b in
      let root = label_at (interned edges).labels (at roots i) in
      (
        (λ both.
            let in_a = (Member-groups (interned edges).labels roots both.0 a).0 both.1 in
            let in_b = (Member-groups (interned edges).labels roots both.0 b).0 both.2 in
            then_on (Joined-Placed both.0 a in_a) (back (Joined-Placed both.0 b in_b))),
        λ joined.
            let same : at roots i ≡ at roots j =
              (classes i j known_a.inside known_b.inside).1
                (Joined-indices (interned edges).index edges a b joined) in
            (
              root,
              (Member-groups (interned edges).labels roots root a).1 (placed a known_a),
              (Member-groups (interned edges).labels roots root b).1 (rw same (placed b known_b)),
            ),
      )

no_groups-ArePartition :
    (edges : List (Bytes × Bytes)) → ((a : Bytes) → ¬ IsEndpoint edges a) → ArePartition edges []
unfolding members_of
no_groups-ArePartition edges none_there = record {
  together = λ a b is_a is_b. absurd (none_there a is_a);
  once = λ r q a m. absurd m;
  named = λ r a m. absurd m;
}

All-edge_indices :
    (index : Map ℕ) (n : ℕ) (edges : List (Bytes × Bytes))
    → ((a b : Bytes) → Member (a, b) edges → (index_of index a < n) × (index_of index b < n))
    → AreIndices n (edge_indices index edges)
unfolding edge_indices
All-edge_indices index n [] h = tt
All-edge_indices index n ((a, b) ∷ edges) h =
    (h a b (inl refl), All-edge_indices index n edges (λ c d m. h c d (inr m)))

connected_components-groups :
    (edges : List (Bytes × Bytes)) (roots : List ℕ)
    → (length (interned edges).labels == 0) ≡ false
    → component_roots (length (interned edges).labels) (edge_indices (interned edges).index edges)
      ≡ some roots
    → connected_components edges ≡ some (sort_all (group_from (interned edges).labels 0 roots []))
unfolding connected_components groups_of
connected_components-groups edges roots f e = rw f (rw e refl)

connected_components-empty :
    (edges : List (Bytes × Bytes))
    → (length (interned edges).labels == 0) ≡ true
    → connected_components edges ≡ some []
unfolding connected_components
connected_components-empty edges t = rw t refl

-- For any list of edges, with the fuel that it is given every find of the union-find ends and
-- groups are returned: two ends of edges stand in one group if and only if they are connected
-- by edges, whatever the direction of these; a label stands in one group at most; and every
-- member of a group is connected to the label that is its key.
pub connected_components_correct :
    (edges : List (Bytes × Bytes))
    → (groups : Map (List Bytes)) × (connected_components edges ≡ some groups)
      × ArePartition edges groups
connected_components_correct edges =
    let s = interned edges in
    let n = length s.labels in
    let known = Known-IsEndpoint edges in
    elim (Bool-cases (n == 0)) [
      | inl t ↦ (
        [],
        connected_components-empty edges t,
        no_groups-ArePartition edges (λ a is_a. ground (arith, t, (known a is_a).inside)),
      )
      | inr f ↦
          let ok =
            All-edge_indices s.index n edges
              (λ a b m. ((Known-left edges a b m).inside, (Known-right edges a b m).inside)) in
          let found = component_roots_correct n (edge_indices s.index edges) ok in
          let members = Member-groups s.labels found.0 in
          (
            sort_all (group_from s.labels 0 found.0 []),
            connected_components-groups edges found.0 f found.1,
            record {
              together = λ a b is_a is_b.
                  grouped edges found.0 found.2 found.3 found.4 a b (known a is_a) (known b is_b);
              once = λ r q a m m'.
                  Placed-unique edges found.0 found.2 found.3 r q a ((members r a).0 m)
                    ((members q a).0 m');
              named = λ r a m. Joined-Placed edges found.0 found.2 found.3 r a ((members r a).0 m);
            },
          )
    ]
