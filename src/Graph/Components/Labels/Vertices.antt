-- ===== src/Graph/Components/Labels/Vertices.antt =====
-- The vertices of crates/graph/src/components.rs: labels, their indices and the edges between them.
use dllb.Common.{ℕ, ◌<◌, List, [], ◌∷◌, Bytes, some, ◌≡◌, refl, length, inl, inr, ◌⊎◌, ap, Member}
use dllb.Common.Map.{Map, lookup}
use dllb.Graph.Components.Joins.{Joined, here, along, back, then_on}
use dllb.Graph.Components.Labels.{
  Interned, intern_all, nothing_interned, index_of, edge_indices, label_at,
}
use dllb.Graph.Components.Labels.Interning.{
  IsInterned, intern_all-IsInterned, nothing-IsInterned, intern_all-found,
}

-- an end of one of the edges
abbrev pub IsEndpoint : List (Bytes × Bytes) → Bytes → Type 0
IsEndpoint edges a = (b : Bytes) × (Member (a, b) edges ⊎ Member (b, a) edges)

index_of-lookup :
    (index : Map ℕ) (a : Bytes) (i : ℕ) → lookup a index ≡ some i → index_of index a ≡ i
unfolding index_of
index_of-lookup index a i e = rw (e, index_of) refl

module _ (index : Map ℕ) where
  Member-edge_indices :
      (edges : List (Bytes × Bytes)) (a b : Bytes)
      → Member (a, b) edges
      → Member (index_of index a, index_of index b) (edge_indices index edges)
  unfolding edge_indices
  Member-edge_indices [] a b m = absurd m
  Member-edge_indices ((c, d) ∷ edges) a b (inl e) =
      inl (ap (λ (z : Bytes × Bytes). (index_of index z.0, index_of index z.1)) e)
  Member-edge_indices ((c, d) ∷ edges) a b (inr m) = inr (Member-edge_indices edges a b m)

  edge_indices-Member :
      (edges : List (Bytes × Bytes)) (i j : ℕ)
      → Member (i, j) (edge_indices index edges)
      → (a : Bytes) × (b : Bytes) × Member (a, b) edges
        × (i ≡ index_of index a)
        × (j ≡ index_of index b)
  unfolding edge_indices
  edge_indices-Member [] i j m = absurd m
  edge_indices-Member ((c, d) ∷ edges) i j (inl e) =
      (c, d, inl refl, ap (λ (z : ℕ × ℕ). z.0) e, ap (λ (z : ℕ × ℕ). z.1) e)
  edge_indices-Member ((c, d) ∷ edges) i j (inr m) =
      let old = edge_indices-Member edges i j m in (old.0, old.1, inr old.2, old.3, old.4)

  pub Joined-indices :
      (edges : List (Bytes × Bytes)) (a b : Bytes)
      → Joined edges a b
      → Joined (edge_indices index edges) (index_of index a) (index_of index b)
  Joined-indices edges a b here = here
  Joined-indices edges a b (along m) = along (Member-edge_indices edges a b m)
  Joined-indices edges a b (back h) = back (Joined-indices edges b a h)
  Joined-indices edges a c (then_on {b} h k) =
      then_on (Joined-indices edges a b h) (Joined-indices edges b c k)

-- what is known of the end of an edge
pub record Known (s : Interned) (a : Bytes) : Type 0 where
  pub inside : index_of s.index a < length s.labels
  pub labelled : label_at s.labels (index_of s.index a) ≡ a

module _ (edges : List (Bytes × Bytes)) where
  abbrev pub interned : Interned
  interned = intern_all edges nothing_interned

  pub kept : IsInterned interned
  kept = (intern_all-IsInterned edges nothing_interned nothing-IsInterned).0

  Known-lookup : (a : Bytes) (i : ℕ) → lookup a interned.index ≡ some i → Known interned a
  Known-lookup a i e =
      let same = index_of-lookup interned.index a i e in
      let both = kept.label a i e in record { inside = rw same both.0; labelled = rw same both.1 }

  pub Known-left : (a b : Bytes) → Member (a, b) edges → Known interned a
  Known-left a b m =
      let ends = intern_all-found edges nothing_interned a b nothing-IsInterned m in
      Known-lookup a ends.0.0 ends.0.1

  pub Known-right : (a b : Bytes) → Member (a, b) edges → Known interned b
  Known-right a b m =
      let ends = intern_all-found edges nothing_interned a b nothing-IsInterned m in
      Known-lookup b ends.1.0 ends.1.1

  pub Known-IsEndpoint : (a : Bytes) → IsEndpoint edges a → Known interned a
  Known-IsEndpoint a (b, inl m) = Known-left a b m
  Known-IsEndpoint a (b, inr m) = Known-right b a m

  pub Joined-labels :
      (i j : ℕ)
      → Joined (edge_indices interned.index edges) i j
      → Joined edges (label_at interned.labels i) (label_at interned.labels j)
  Joined-labels i j here = here
  Joined-labels i j (along m) =
      let edge = edge_indices-Member interned.index edges i j m in
      let left = Known-left edge.0 edge.1 edge.2 in
      let right = Known-right edge.0 edge.1 edge.2 in
      rw edge.3 (rw edge.4 (rw left.labelled (rw right.labelled (along edge.2))))
  Joined-labels i j (back h) = back (Joined-labels j i h)
  Joined-labels i k (then_on {b = j} h g) = then_on (Joined-labels i j h) (Joined-labels j k g)
