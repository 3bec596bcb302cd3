-- ===== src/Graph/Components/Labels/Groups.antt =====
-- The groups of crates/graph/src/components.rs: who is in them.
use dllb.Common.{
  ℕ, zero, suc, ◌+◌, ◌<◌, List, [], ◌∷◌, ◌++◌, Bytes, some, ◌≡◌, refl, arith, length, Bool-cases,
  beq, beq_iff, inl, inr, ◌⊎◌, ◌↔◌, Member-append, sym, ◌∙◌, if◌then◌else◌, Member,
}
use dllb.Common.Map.{Map, lookup, insert, lookup-insert}
use dllb.Common.Order.{lex_lt}
use dllb.Graph.Components.{at}
use dllb.Graph.Components.Labels.{label_at, members_of, group_from, put_sorted, sorted, sort_all}

members_of-insert :
    (r k : Bytes) (v : List Bytes) (g : Map (List Bytes))
    → members_of r (insert k v g) ≡ (if beq k r then v else members_of r g)
unfolding members_of
members_of-insert r k v g = elim (Bool-cases (beq k r)) [
  | inl t ↦
      let e : lookup r (insert k v g) ≡ some v = lookup-insert r k v g ∙ rw t refl in
      rw t (rw (e, members_of) refl)
  | inr f ↦
      let e : lookup r (insert k v g) ≡ lookup r g = lookup-insert r k v g ∙ rw f refl in
      rw f (rw (e, members_of) refl)
]

Member-put_sorted :
    (a b : Bytes) (bs : List Bytes) → Member b (put_sorted a bs) ↔ ((b ≡ a) ⊎ Member b bs)
unfolding put_sorted
Member-put_sorted a b [] = ((λ m. m), λ m. m)
Member-put_sorted a b (c ∷ bs) =
    let rest = Member-put_sorted a b bs in
    elim (Bool-cases (lex_lt c a)) [
      | inr f ↦ rw f ((λ m. m), λ m. m)
      | inl t ↦ rw t (
        (λ m. elim m [
          | inl e ↦ inr (inl e)
          | inr n ↦ elim (rest.0 n) [ inl e ↦ inl e | inr old ↦ inr (inr old) ]
        ]),
        λ m. elim m [
          | inl e ↦ inr (rest.1 (inl e))
          | inr n ↦ elim n [ inl e ↦ inl e | inr old ↦ inr (rest.1 (inr old)) ]
        ],
      )
    ]

Member-sorted : (b : Bytes) (bs : List Bytes) → Member b (sorted bs) ↔ Member b bs
unfolding sorted
Member-sorted b [] = ((λ m. m), λ m. m)
Member-sorted b (a ∷ bs) =
    let put = Member-put_sorted a b (sorted bs) in
    let rest = Member-sorted b bs in
    (
      (λ m. elim (put.0 m) [ inl e ↦ inl e | inr n ↦ inr (rest.0 n) ]),
      λ m. put.1 (elim m [ inl e ↦ inl e | inr n ↦ inr (rest.1 n) ]),
    )

members_of-sort_all :
    (r : Bytes) (g : Map (List Bytes)) → members_of r (sort_all g) ≡ sorted (members_of r g)
unfolding members_of sort_all sorted
members_of-sort_all r [] = refl
members_of-sort_all r ((k, v) ∷ g) = elim (Bool-cases (beq k r)) [
  | inl t ↦ rw (t, members_of) refl
  | inr f ↦ rw (f, members_of) (members_of-sort_all r g)
]

-- `a` is the label of a vertex from `i` on whose root has the label `r`
abbrev pub Placed : List Bytes → ℕ → List ℕ → Bytes → Bytes → Type 0
Placed labels i roots r a =
    (j : ℕ) × (j < length roots)
    × (label_at labels (at roots j) ≡ r)
    × (label_at labels (i + j) ≡ a)

module _ (labels : List Bytes) where
  Placed-next :
      (i root : ℕ) (roots : List ℕ) (r a : Bytes)
      → Placed labels (suc i) roots r a
      → Placed labels i (root ∷ roots) r a
  unfolding at
  Placed-next i root roots r a (j, less, e, f) =
      let same : i + suc j ≡ suc i + j = omega arith in (suc j, omega arith, e, rw same f)

  Placed-first :
      (i root : ℕ) (roots : List ℕ) (r a : Bytes)
      → label_at labels root ≡ r
      → label_at labels i ≡ a
      → Placed labels i (root ∷ roots) r a
  unfolding at
  Placed-first i root roots r a e f =
      let same : i + 0 ≡ i = omega arith in (0, omega arith, e, rw same f)

  Placed-cases :
      (i root : ℕ) (roots : List ℕ) (r a : Bytes)
      → Placed labels i (root ∷ roots) r a
      → ((label_at labels root ≡ r) × (label_at labels i ≡ a)) ⊎ Placed labels (suc i) roots r a
  unfolding at
  Placed-cases i root roots r a (zero, less, e, f) =
      let same : i + 0 ≡ i = omega arith in inl (e, rw same at f)
  Placed-cases i root roots r a (suc j, less, e, f) =
      let same : i + suc j ≡ suc i + j = omega arith in inr (j, omega arith, e, rw same at f)

  -- the group of `r` after one more vertex
  Member-one :
      (i root : ℕ) (groups : Map (List Bytes)) (r a : Bytes)
      → Member a (
          members_of r (
            insert
              (label_at labels root)
              (members_of (label_at labels root) groups ++ label_at labels i ∷ [])
              groups))
        ↔ (Member a (members_of r groups) ⊎ ((label_at labels root ≡ r) × (label_at labels i ≡ a)))
  Member-one i root groups r a =
      let k = label_at labels root in
      let v = members_of k groups ++ label_at labels i ∷ [] in
      let both = Member-append a (members_of k groups) (label_at labels i ∷ []) in
      elim (Bool-cases (beq k r)) [
        | inr f ↦
            let e : members_of r (insert k v groups) ≡ members_of r groups =
              members_of-insert r k v groups ∙ rw f refl in
            rw e (
              (λ m. inl m),
              λ m. elim m [
                | inl old ↦ old
                | inr (same, _) ↦ absurd (ground (arith, f, same, beq_iff k r))
              ],
            )
        | inl t ↦
            let e : members_of r (insert k v groups) ≡ v =
              members_of-insert r k v groups ∙ rw t refl in
            let same : k ≡ r = (beq_iff k r).0 t in
            rw e (
              (λ m. elim (both.0 m) [
                | inl old ↦ inl (rw (sym same) old)
                | inr last ↦ elim last [ inl g ↦ inr (same, sym g) | inr no_more ↦ absurd no_more ]
              ]),
              λ m. elim m [
                | inl old ↦ both.1 (inl (rw same old))
                | inr (_, g) ↦ both.1 (inr (inl (sym g)))
              ],
            )
      ]

  pub Member-group_from :
      (i : ℕ) (roots : List ℕ) (groups : Map (List Bytes)) (r a : Bytes)
      → Member a (members_of r (group_from labels i roots groups))
        ↔ (Member a (members_of r groups) ⊎ Placed labels i roots r a)
  unfolding group_from
  Member-group_from i [] groups r a =
      ((λ m. inl m), λ m. elim m [ inl old ↦ old | inr (j, less, _, _) ↦ absurd (omega arith) ])
  Member-group_from i (root ∷ roots) groups r a =
      let k = label_at labels root in
      let now = insert k (members_of k groups ++ label_at labels i ∷ []) groups in
      let rest = Member-group_from (suc i) roots now r a in
      let one = Member-one i root groups r a in
      (
        (λ m. elim (rest.0 m) [
          | inr later ↦ inr (Placed-next i root roots r a later)
          | inl old ↦ elim (one.0 old) [
            | inl before ↦ inl before
            | inr (e, f) ↦ inr (Placed-first i root roots r a e f)
          ]
        ]),
        λ m. rest.1 (elim m [
          | inl before ↦ inl (one.1 (inl before))
          | inr placed ↦ elim (Placed-cases i root roots r a placed) [
            | inl here ↦ inl (one.1 (inr here))
            | inr later ↦ inr later
          ]
        ]),
      )

  pub Member-groups :
      (roots : List ℕ) (r a : Bytes)
      → Member a (members_of r (sort_all (group_from labels 0 roots [])))
        ↔ Placed labels 0 roots r a
  unfolding members_of
  Member-groups roots r a =
      let g = group_from labels 0 roots [] in
      let order = Member-sorted a (members_of r g) in
      let all = Member-group_from 0 roots [] r a in
      rw (members_of-sort_all r g) (
        (λ m. elim (all.0 (order.0 m)) [ inl none_yet ↦ absurd none_yet | inr placed ↦ placed ]),
        λ placed. order.1 (all.1 (inr placed)),
      )
