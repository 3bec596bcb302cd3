-- ===== src/Graph/Components/Labels/Interning.antt =====
-- The labels and indices of crates/graph/src/components.rs.
use dllb.Common.{
  ℕ, zero, suc, ◌<◌, List, [], ◌∷◌, ◌++◌, Bytes, true, false, none, some, ◌≡◌, refl, arith, length,
  Bool-cases, Option-cases, ◌==◌, beq, beq_iff, beq_refl, inl, inr, ap, ◌∙◌, if◌then◌else◌,
  length-append, Member,
}
use dllb.Common.Map.{lookup, insert, contains_key, lookup-insert}
use dllb.Graph.Components.Labels.{Interned, intern, intern_all, nothing_interned, label_at}

-- The index of a label and the label of an index undo each other.
pub record IsInterned (s : Interned) : Type 0 where
  pub label :
      (id : Bytes) (i : ℕ)
      → lookup id s.index ≡ some i
      → (i < length s.labels) × (label_at s.labels i ≡ id)
  pub found : (i : ℕ) → i < length s.labels → lookup (label_at s.labels i) s.index ≡ some i

label_at-append :
    (ls : List Bytes) (id : Bytes) (i : ℕ)
    → label_at (ls ++ id ∷ []) i ≡ (if i == length ls then id else label_at ls i)
unfolding label_at
label_at-append [] id zero = refl
label_at-append [] id (suc i) = ground arith
label_at-append (l ∷ ls) id zero = ground arith
label_at-append (l ∷ ls) id (suc i) = ground (arith, label_at-append ls id i)

pub some-injective : (i j : ℕ) → some i ≡ some j → i ≡ j
some-injective i j e = ground arith

intern-known : (id : Bytes) (s : Interned) (i : ℕ) → lookup id s.index ≡ some i → intern id s ≡ s
unfolding intern
intern-known id s i e =
    let t : contains_key id s.index ≡ true = rw (e, contains_key) refl in rw (t, intern) refl

new_label : Bytes → Interned → Interned
new_label id s = record {
  index = insert id (length s.labels) s.index;
  labels = s.labels ++ id ∷ [];
}

intern-new : (id : Bytes) (s : Interned) → lookup id s.index ≡ none → intern id s ≡ new_label id s
unfolding intern new_label
intern-new id s e =
    let f : contains_key id s.index ≡ false = rw (e, contains_key) refl in rw (f, intern) refl

new_label-IsInterned :
    (id : Bytes) (s : Interned)
    → lookup id s.index ≡ none
    → IsInterned s
    → IsInterned (new_label id s)
unfolding new_label
new_label-IsInterned id s e h = record {
  label = λ id' i f. elim (Bool-cases (beq id id')) [
    | inl t ↦
        let last : i ≡ length s.labels =
          ground (arith, f, t, lookup-insert id' id (length s.labels) s.index) in
        (
          omega (arith, last, more),
          ground (arith, last, t, beq_iff id id', label_at-append s.labels id i),
        )
    | inr n ↦
        let old =
          h.label id' i (ground (arith, f, n, lookup-insert id' id (length s.labels) s.index)) in
        (omega (arith, old.0, more), ground (arith, old.0, old.1, label_at-append s.labels id i))
  ];
  found = λ i less. elim (Bool-cases (i == length s.labels)) [
    | inl t ↦
        let here : label_at (s.labels ++ id ∷ []) i ≡ id =
          label_at-append s.labels id i ∙ rw t refl in
        rw here (
          lookup-insert id id (length s.labels) s.index ∙ rw (beq_refl id) (ap some (ground arith)))
    | inr n ↦
        let there : label_at (s.labels ++ id ∷ []) i ≡ label_at s.labels i =
          label_at-append s.labels id i ∙ rw n refl in
        let old = h.found i (ground (arith, more)) in
        rw there (
          ground (
            arith,
            old,
            e,
            beq_iff id (label_at s.labels i),
            lookup-insert (label_at s.labels i) id (length s.labels) s.index,
          ))
  ];
}
  where
    more : length (s.labels ++ id ∷ []) ≡ suc (length s.labels)
    more = length-append s.labels (id ∷ []) ∙ omega arith

pub intern-IsInterned : (id : Bytes) (s : Interned) → IsInterned s → IsInterned (intern id s)
intern-IsInterned id s h = elim (Option-cases (lookup id s.index)) [
  | inl e ↦ rw (intern-new id s e) (new_label-IsInterned id s e h)
  | inr (i, e) ↦ rw (intern-known id s i e) h
]

-- `later` has the indices of `s`, and more
abbrev Extends : Interned → Interned → Type 0
Extends s later = (id : Bytes) (i : ℕ) → lookup id s.index ≡ some i → lookup id later.index ≡ some i

Extends-intern : (id : Bytes) (s : Interned) → Extends s (intern id s)
unfolding new_label
Extends-intern id s j i f = elim (Option-cases (lookup id s.index)) [
  | inl e ↦
      rw (intern-new id s e)
        (ground (arith, f, e, beq_iff id j, lookup-insert j id (length s.labels) s.index))
  | inr (k, e) ↦ rw (intern-known id s k e) f
]

intern-found : (id : Bytes) (s : Interned) → (i : ℕ) × (lookup id (intern id s).index ≡ some i)
unfolding new_label
intern-found id s = elim (Option-cases (lookup id s.index)) [
  | inl e ↦
      rw (intern-new id s e)
        (length s.labels, lookup-insert id id (length s.labels) s.index ∙ rw (beq_refl id) refl)
  | inr (k, e) ↦ rw (intern-known id s k e) (k, e)
]

pub intern_all-IsInterned :
    (edges : List (Bytes × Bytes)) (s : Interned)
    → IsInterned s
    → IsInterned (intern_all edges s) × Extends s (intern_all edges s)
unfolding intern_all
intern_all-IsInterned [] s h = (h, λ id i f. f)
intern_all-IsInterned ((src, dst) ∷ edges) s h =
    let one = intern-IsInterned src s h in
    let rest =
      intern_all-IsInterned edges (intern dst (intern src s))
        (intern-IsInterned dst (intern src s) one) in
    (
      rest.0,
      λ id i f. rest.1 id i (Extends-intern dst (intern src s) id i (Extends-intern src s id i f)),
    )

pub nothing-IsInterned : IsInterned nothing_interned
nothing-IsInterned = record {
  label = λ id i f. absurd (ground arith);
  found = λ i less. absurd (omega arith);
}

-- both ends of an edge have an index
pub intern_all-found :
    (edges : List (Bytes × Bytes)) (s : Interned) (a b : Bytes)
    → IsInterned s
    → Member (a, b) edges
    → ((i : ℕ) × (lookup a (intern_all edges s).index ≡ some i))
      × ((j : ℕ) × (lookup b (intern_all edges s).index ≡ some j))
unfolding intern_all
intern_all-found [] s a b h m = absurd m
intern_all-found ((src, dst) ∷ edges) s a b h (inl e) =
    let s' = intern dst (intern src s) in
    let rest =
      intern_all-IsInterned edges s'
        (intern-IsInterned dst (intern src s) (intern-IsInterned src s h)) in
    let one = intern-found src s in
    let two = intern-found dst (intern src s) in
    let first : a ≡ src = ap (λ (z : Bytes × Bytes). z.0) e in
    let second : b ≡ dst = ap (λ (z : Bytes × Bytes). z.1) e in
    (
      rw first (one.0, rest.1 src one.0 (Extends-intern dst (intern src s) src one.0 one.1)),
      rw second (two.0, rest.1 dst two.0 two.1),
    )
intern_all-found ((src, dst) ∷ edges) s a b h (inr m) =
    intern_all-found edges (intern dst (intern src s)) a b
      (intern-IsInterned dst (intern src s) (intern-IsInterned src s h)) m
