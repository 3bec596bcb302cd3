-- ===== src/Graph/Entries.antt =====
-- The two entries of an edge in a map of the table's entries (crates/graph/src/store.rs).
use dllb.Common.{
  [], ◌∷◌, Bytes, true, false, none, some, ◌≡◌, ◌≢◌, arith, ◌∙◌, sym, inl, inr, beq, beq_iff,
  beq_refl, beq_sym, ap, Bool-cases, List-cases,
}
use dllb.Common.Map.{
  Map, lookup, insert, remove, insert_all, remove_all, lookup-insert, lookup-remove,
}
use dllb.Core.{Value, ok, Attempt-cases}
use dllb.Storage.Key.Parse.{IsScope, IsSegment}
use dllb.Storage.Key.Region.{outgoing, incoming, encode, encode-injective}
use dllb.Storage.Kv.{is_some}
use dllb.Document.Serde.{FieldsCodec, IsCodec}
use dllb.Graph.Edge.{EdgeTable, out_key, in_key, serialize_props, deserialize_props}

-- The parts of an edge's key have no separator.
abbrev pub IsTriple : Bytes → Bytes → Bytes → Type 0
IsTriple src edge_type dst = IsSegment src × IsSegment edge_type × IsSegment dst

pub deserialize_props-serialize_props :
    (codec : FieldsCodec)
    → IsCodec codec
    → (props : Map Value) (bytes : Bytes) → serialize_props codec props ≡ ok bytes
    → deserialize_props codec bytes ≡ ok props
unfolding serialize_props deserialize_props
deserialize_props-serialize_props codec reads [] bytes h = ground arith
deserialize_props-serialize_props codec reads (p ∷ props) bytes h =
    elim (Attempt-cases (codec.to_vec (p ∷ props))) [
      | inr (text, e) ↦ absurd (ground arith)
      | inl (b, e) ↦ elim (List-cases b) [
        | inl f ↦ absurd (ground (arith, reads.to_vec-ne (p ∷ props)))
        | inr (x, rest, f) ↦ ground (arith, reads.from_slice-to_vec (p ∷ props) b e)
      ]
    ]

module _ (t : EdgeTable) (scope : IsScope t.ns t.db t.table) (a ty b a' ty' b' : Bytes)
    (clean : IsTriple a ty b) (clean' : IsTriple a' ty' b') where
  out_key-injective : out_key t a ty b ≡ out_key t a' ty' b' → (a ≡ a') × (ty ≡ ty') × (b ≡ b')
  out_key-injective h =
      let (_, _, _, e) =
        encode-injective t.ns t.db t.table t.ns t.db t.table (outgoing a ty b) (outgoing a' ty' b')
          scope scope (clean.0, clean.1) (clean'.0, clean'.1) (unfold encode in h) in
      ground arith

  in_key-injective : in_key t b ty a ≡ in_key t b' ty' a' → (a ≡ a') × (ty ≡ ty') × (b ≡ b')
  in_key-injective h =
      let (_, _, _, e) =
        encode-injective t.ns t.db t.table t.ns t.db t.table (incoming b ty a) (incoming b' ty' a')
          scope scope (clean.2, clean.1) (clean'.2, clean'.1) (unfold encode in h) in
      ground arith

  out_key-ne-in_key : out_key t a ty b ≢ in_key t b' ty' a'
  out_key-ne-in_key h =
      let (_, _, _, e) =
        encode-injective t.ns t.db t.table t.ns t.db t.table (outgoing a ty b) (incoming b' ty' a')
          scope scope (clean.0, clean.1) (clean'.2, clean'.1) (unfold encode in h) in
      absurd (ground arith)

  same_pair :
      beq (out_key t a ty b) (out_key t a' ty' b') ≡ beq (in_key t b ty a) (in_key t b' ty' a')
  same_pair = elim (Bool-cases (beq (out_key t a ty b) (out_key t a' ty' b'))) [
    | inl h ↦
        let (p, q, r) = out_key-injective ((beq_iff _ _).0 h) in
        h ∙ rw p (rw q (rw r ((sym (beq_refl (in_key t b' ty' a'))))))
    | inr h ↦ elim (Bool-cases (beq (in_key t b ty a) (in_key t b' ty' a'))) [
      | inl g ↦
          let (p, q, r) = in_key-injective ((beq_iff _ _).0 g) in
          rw p (rw q (rw r (beq_refl (out_key t a' ty' b') ∙ sym (beq_refl (in_key t b' ty' a')))))
      | inr g ↦ h ∙ sym g
    ]
  ]

  out_in : beq (out_key t a ty b) (in_key t b' ty' a') ≡ false
  out_in = ground (arith, beq_iff (out_key t a ty b) (in_key t b' ty' a'), out_key-ne-in_key)

pub record CleanEdge : Type 0 where
  pub src : Bytes
  pub edge_type : Bytes
  pub dst : Bytes
  pub clean : IsTriple src edge_type dst

-- Every edge, its parts free of separators, has both of its entries or none.
abbrev pub IsMirrored : EdgeTable → Map Bytes → Type 0
IsMirrored t m =
    (x : CleanEdge)
    → is_some (lookup (out_key t x.src x.edge_type x.dst) m)
      ≡ is_some (lookup (in_key t x.dst x.edge_type x.src) m)

module _ (t : EdgeTable) (scope : IsScope t.ns t.db t.table) (a ty b : Bytes)
    (clean : IsTriple a ty b) (m : Map Bytes) where
  pub lookup-relate_out :
      (props : Bytes)
      → lookup
          (out_key t a ty b)
          (insert_all ((out_key t a ty b, props) ∷ (in_key t b ty a, []) ∷ []) m)
        ≡ some props
  unfolding insert_all
  lookup-relate_out props = ground (
    arith,
    lookup-insert (out_key t a ty b) (in_key t b ty a) [] (insert (out_key t a ty b) props m),
    lookup-insert (out_key t a ty b) (out_key t a ty b) props m,
    beq_refl (out_key t a ty b),
    out_in t scope a ty b a ty b clean clean,
    beq_sym (out_key t a ty b) (in_key t b ty a),
  )

  pub relate-mirror :
      (props : Bytes)
      → IsMirrored t m
      → IsMirrored t (insert_all ((out_key t a ty b, props) ∷ (in_key t b ty a, []) ∷ []) m)
  unfolding insert_all
  relate-mirror props h x =
      let a' = x.src in
      let ty' = x.edge_type in
      let b' = x.dst in
      let clean' = x.clean in
      let o = out_key t a ty b in
      let i = in_key t b ty a in
      let o' = out_key t a' ty' b' in
      let i' = in_key t b' ty' a' in
      ground (
        arith,
        lookup-insert o' i [] (insert o props m),
        lookup-insert o' o props m,
        lookup-insert i' i [] (insert o props m),
        lookup-insert i' o props m,
        same_pair t scope a ty b a' ty' b' clean clean',
        out_in t scope a ty b a' ty' b' clean clean',
        out_in t scope a' ty' b' a ty b clean' clean,
        beq_sym o' i,
        h x,
      )

  pub delete-mirror :
      IsMirrored t m → IsMirrored t (remove_all (out_key t a ty b ∷ in_key t b ty a ∷ []) m)
  unfolding remove_all
  delete-mirror h x =
      let a' = x.src in
      let ty' = x.edge_type in
      let b' = x.dst in
      let clean' = x.clean in
      let o = out_key t a ty b in
      let i = in_key t b ty a in
      let o' = out_key t a' ty' b' in
      let i' = in_key t b' ty' a' in
      ground (
        arith,
        lookup-remove o' i (remove o m),
        lookup-remove o' o m,
        lookup-remove i' i (remove o m),
        lookup-remove i' o m,
        same_pair t scope a ty b a' ty' b' clean clean',
        out_in t scope a ty b a' ty' b' clean clean',
        out_in t scope a' ty' b' a ty b clean' clean,
        beq_sym o' i,
        h x,
      )

  pub lookup-delete :
      lookup (out_key t a ty b) (remove_all (out_key t a ty b ∷ in_key t b ty a ∷ []) m) ≡ none
  unfolding remove_all
  lookup-delete = ground (
    arith,
    lookup-remove (out_key t a ty b) (in_key t b ty a) (remove (out_key t a ty b) m),
    lookup-remove (out_key t a ty b) (out_key t a ty b) m,
    beq_refl (out_key t a ty b),
  )

  pub update-mirror :
      (props : Bytes)
      → is_some (lookup (out_key t a ty b) m) ≡ true
      → IsMirrored t m
      → IsMirrored t (insert (out_key t a ty b) props m)
  update-mirror props there h x =
      let a' = x.src in
      let ty' = x.edge_type in
      let b' = x.dst in
      let clean' = x.clean in
      let o = out_key t a ty b in
      let i = in_key t b ty a in
      let o' = out_key t a' ty' b' in
      let i' = in_key t b' ty' a' in
      elim (Bool-cases (beq o o')) [
        | inl e ↦
            let same = (beq_iff o o').0 e in
            ground (
              arith,
              lookup-insert o' o props m,
              lookup-insert i' o props m,
              out_in t scope a ty b a' ty' b' clean clean',
              h x,
              ap (λ k. is_some (lookup k m)) same,
            )
        | inr e ↦ ground (
          arith,
          lookup-insert o' o props m,
          lookup-insert i' o props m,
          out_in t scope a ty b a' ty' b' clean clean',
          h x,
        )
      ]
