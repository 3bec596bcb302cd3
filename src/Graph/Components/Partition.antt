-- ===== src/Graph/Components/Partition.antt =====
-- The classes of the union-find of crates/graph/src/components.rs are the connected components.
use dllb.Common.{
  ℕ, zero, suc, ◌+◌, ◌≤◌, ◌<◌, List, [], ◌∷◌, ◌++◌, false, some, ◌≡◌, refl, arith, length,
  Bool-cases, ◌==◌, ltb, inl, inr, ◌⊎◌, ap, sym, ◌∙◌, Member, Member-append, All, append_assoc,
  append-nil,
}
use dllb.Graph.Components.{at, set, find, link, union, unite, indices_from}
use dllb.Graph.Components.Forest.{Rooted, at_root, up, Rooted-self, Rooted-unique}
use dllb.Graph.Components.Find.{InRange, Keeps-trans, find-Rooted}
use dllb.Graph.Components.Joins.{Joined, here, along, back, Joined-more, Joins, Joins-Keeps}
use dllb.Graph.Components.Attach.{Joins-after}

Rooted-lt :
    (parent : List ℕ) (x r d : ℕ)
    → InRange parent
    → x < length parent
    → Rooted parent x r d
    → r < length parent
Rooted-lt parent x r d h less (at_root e) = less
Rooted-lt parent x r d' h less (up {p} {d = d} e g) =
    Rooted-lt parent p r d h (omega (arith, sym e, h x less)) g

-- the edges so far, with one more
module _ (E : List (ℕ × ℕ)) (a b : ℕ) where
  abbrev with_edge : List (ℕ × ℕ)
  with_edge = E ++ (a, b) ∷ []

  old_edge : (x : ℕ × ℕ) → Member x E → Member x with_edge
  old_edge x m = (Member-append x E ((a, b) ∷ [])).1 (inl m)

  new_edge : Joined with_edge a b
  new_edge = along ((Member-append (a, b) E ((a, b) ∷ [])).1 (inr (inl refl)))

  which_edge : (x y : ℕ) → Member (x, y) with_edge → Member (x, y) E ⊎ ((x ≡ a) × (y ≡ b))
  which_edge x y m = elim ((Member-append (x, y) E ((a, b) ∷ [])).0 m) [
    | inl old ↦ inl old
    | inr last ↦ elim last [
      | inl e ↦ inr (ap (λ (z : ℕ × ℕ). z.0) e, ap (λ (z : ℕ × ℕ). z.1) e)
      | inr no_more ↦ absurd no_more
    ]
  ]

  module _ (k n : ℕ) (p rank : List ℕ) (h : Joins E k n p) (ra rb da db : ℕ) (less_a : a < n)
      (less_b : b < n) (up_a : Rooted p a ra da) (up_b : Rooted p b rb db) where
    in_a : ra < length p
    in_a = Rooted-lt p a ra da h.in_range (omega (arith, h.size)) up_a

    in_b : rb < length p
    in_b = Rooted-lt p b rb db h.in_range (omega (arith, h.size)) up_b

    a_under_b : (ra == rb) ≡ false → Joins with_edge (suc k) n (set ra rb p)
    a_under_b f =
        Joins-after E with_edge k n p h a b ra rb da db less_a less_b up_a up_b old_edge new_edge
          (λ x y m. elim (which_edge x y m) [ inl old ↦ inl old | inr new ↦ inr (inl new) ]) in_a
          in_b f

    b_under_a : (ra == rb) ≡ false → Joins with_edge (suc k) n (set rb ra p)
    b_under_a f =
        Joins-after E with_edge k n p h b a rb ra db da less_b less_a up_b up_a old_edge
          (back new_edge)
          (λ x y m. elim (which_edge x y m) [ inl old ↦ inl old | inr new ↦ inr (inr new) ]) in_b
          in_a (ground arith)

    same_class : ra ≡ rb → Joins with_edge (suc k) n p
    same_class e = record {
      size = h.size;
      in_range = h.in_range;
      rooted = λ x less.
          let was = h.rooted x less in (was.0, (was.1.0, was.1.1, omega (arith, was.1.2)));
      joined = λ x r d g less. Joined-more E with_edge x r old_edge (h.joined x r d g less);
      merged = λ x y r s d e' m lx ly f g. elim (which_edge x y m) [
        | inl old ↦ h.merged x y r s d e' old lx ly f g
        | inr (at_a, at_b) ↦
            Rooted-unique p x a r ra d da at_a f up_a
            ∙ (e ∙ Rooted-unique p b y rb s db e' (sym at_b) up_b g)
      ];
    }

    link-Joins : Joins with_edge (suc k) n (link ra rb p rank).0
    unfolding link
    link-Joins = elim (Bool-cases (ra == rb)) [
      | inl t ↦ rw t (same_class (ground arith))
      | inr f ↦ elim (Bool-cases (ltb (at rank ra) (at rank rb))) [
        | inl lower ↦ rw f (rw lower (a_under_b f))
        | inr not_lower ↦ elim (Bool-cases (ltb (at rank rb) (at rank ra))) [
          | inl higher ↦ rw f (rw not_lower (rw higher (b_under_a f)))
          | inr level ↦ rw f (rw not_lower (rw level (b_under_a f)))
        ]
      ]
    ]

union-find :
    (fuel : ℕ) (p p' p'' rank : List ℕ) (a b ra rb : ℕ)
    → find fuel p a ≡ some (ra, p')
    → find fuel p' b ≡ some (rb, p'')
    → union fuel p rank a b ≡ some (link ra rb p'' rank)
unfolding union
union-find fuel p p' p'' rank a b ra rb e f = rw (e, union) (rw f refl)

union-Joins :
    (fuel : ℕ) (E : List (ℕ × ℕ)) (k n : ℕ) (p rank : List ℕ) (a b : ℕ)
    → Joins E k n p
    → k ≤ fuel
    → a < n
    → b < n
    → (p' : List ℕ) × (rank' : List ℕ) × (union fuel p rank a b ≡ some (p', rank'))
      × Joins (E ++ (a, b) ∷ []) (suc k) n p'
union-Joins fuel E k n p rank a b h le less_a less_b =
    let ua = h.rooted a less_a in
    let fa =
      find-Rooted fuel p a ua.0 ua.1.0 (omega (arith, h.size)) h.in_range ua.1.1
        (omega (arith, ua.1.2)) in
    let h' = Joins-Keeps E k n p fa.0 fa.2 h in
    let ub = h'.rooted b less_b in
    let fb =
      find-Rooted fuel fa.0 b ub.0 ub.1.0 (omega (arith, h'.size)) h'.in_range ub.1.1
        (omega (arith, ub.1.2)) in
    let h'' = Joins-Keeps E k n fa.0 fb.0 fb.2 h' in
    let va = (Keeps-trans p fa.0 fb.0 fa.2 fb.2).led a ua.0 ua.1.0 ua.1.1 in
    let vb = fb.2.led b ub.0 ub.1.0 ub.1.1 in
    (
      (link ua.0 ub.0 fb.0 rank).0,
      (link ua.0 ub.0 fb.0 rank).1,
      union-find fuel p fa.0 fb.0 rank a b ua.0 ub.0 fa.1 fb.1,
      link-Joins E a b k n fb.0 rank h'' ua.0 ub.0 va.0 vb.0 less_a less_b va.1 vb.1,
    )

abbrev pub AreIndices : ℕ → List (ℕ × ℕ) → Type 0
AreIndices n = All (λ (e : ℕ × ℕ). (e.0 < n) × (e.1 < n))

unite-union :
    (fuel : ℕ) (edges : List (ℕ × ℕ)) (p rank : List ℕ) (a b : ℕ) (p' rank' : List ℕ)
    → union fuel p rank a b ≡ some (p', rank')
    → unite fuel ((a, b) ∷ edges) p rank ≡ unite fuel edges p' rank'
unfolding unite
unite-union fuel edges p rank a b p' rank' e = rw (e, unite) refl

pub unite-Joins :
    (fuel : ℕ) (E edges : List (ℕ × ℕ)) (k n : ℕ) (p rank : List ℕ)
    → Joins E k n p
    → k + length edges ≤ fuel
    → AreIndices n edges
    → (p' : List ℕ) × (rank' : List ℕ) × (unite fuel edges p rank ≡ some (p', rank'))
      × Joins (E ++ edges) (k + length edges) n p'
unfolding unite
unite-Joins fuel E [] k n p rank h le ok =
    (p, rank, refl, rw (append-nil E) (let same : k + 0 ≡ k = omega arith in rw same h))
unite-Joins fuel E ((a, b) ∷ edges) k n p rank h le ok =
    let one = union-Joins fuel E k n p rank a b h (omega arith) ok.0.0 ok.0.1 in
    let rest =
      unite-Joins fuel (E ++ (a, b) ∷ []) edges (suc k) n one.0 one.1 one.3 (omega arith) ok.1 in
    let count : suc k + length edges ≡ k + suc (length edges) = omega arith in
    (
      rest.0,
      rest.1,
      unite-union fuel edges p rank a b one.0 one.1 one.2 ∙ rest.2,
      rw (append_assoc E ((a, b) ∷ []) edges) at (rw count at rest.3),
    )

pub at-indices_from : (i n j : ℕ) → j < n → at (indices_from i n) j ≡ i + j
unfolding at indices_from
at-indices_from i zero j h = absurd (omega arith)
at-indices_from i (suc n) zero h = omega arith
at-indices_from i (suc n) (suc j) h = omega (arith, at-indices_from (suc i) n j)

pub length-indices_from : (i n : ℕ) → length (indices_from i n) ≡ n
unfolding indices_from
length-indices_from i zero = refl
length-indices_from i (suc n) = ap suc (length-indices_from (suc i) n)

pub its_own : (n x : ℕ) → x < n → at (indices_from 0 n) x ≡ x
its_own n x less = omega (arith, at-indices_from 0 n x less)

pub alone : (n : ℕ) → Joins [] 0 n (indices_from 0 n)
alone n = record {
  size = length-indices_from 0 n;
  in_range = λ i h. omega (
    arith,
    length-indices_from 0 n,
    at-indices_from 0 n i (omega (arith, length-indices_from 0 n)),
  );
  rooted = λ x less. (x, (0, at_root (its_own n x less), omega arith));
  joined = λ x r d g less.
      let end : r ≡ x = Rooted-self (indices_from 0 n) x x r d (its_own n x less) refl g in
      rw end here;
  merged = λ a b r s d e m. absurd m;
}
