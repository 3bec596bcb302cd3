-- ===== src/Graph/Components/Classes.antt =====
-- The roots that crates/graph/src/components.rs finds for its vertices once the edges are united.
use dllb.Common.{
  ℕ, zero, suc, ◌+◌, ◌≤◌, ◌<◌, List, [], ◌∷◌, some, ◌≡◌, refl, arith, length, ap, sym, ◌∙◌, ◌↔◌,
  inl, inr, Member, All,
}
use dllb.Graph.Components.{
  at, find, indices_from, zeros, unite, partition, roots_of, component_roots,
}
use dllb.Graph.Components.Forest.{Rooted, Rooted-unique}
use dllb.Graph.Components.Find.{Keeps, find-Rooted}
use dllb.Graph.Components.Joins.{Joined, here, along, back, then_on, Joins, Joins-Keeps}
use dllb.Graph.Components.Partition.{AreIndices, unite-Joins, length-indices_from, its_own, alone}

roots_of-find :
    (fuel i : ℕ) (is p p' : List ℕ) (r : ℕ) (roots : List ℕ)
    → find fuel p i ≡ some (r, p')
    → roots_of fuel is p' ≡ some roots
    → roots_of fuel (i ∷ is) p ≡ some (r ∷ roots)
unfolding roots_of
roots_of-find fuel i is p p' r roots e f = rw (e, roots_of) (rw f refl)

at-All : (n m : ℕ) (is : List ℕ) → All (λ i. i < n) is → m < length is → at is m < n
unfolding at
at-All n m [] ok less = absurd (omega arith)
at-All n zero (i ∷ is) ok less = ok.0
at-All n (suc m) (i ∷ is) ok less = at-All n m is ok.1 (omega arith)

All-indices_from : (n i m : ℕ) → i + m ≤ n → All (λ j. j < n) (indices_from i m)
unfolding indices_from
All-indices_from n i zero le = tt
All-indices_from n i (suc m) le = (omega arith, All-indices_from n (suc i) m (omega arith))

-- a chain after some finds led to the same root before them
Rooted-before :
    (E : List (ℕ × ℕ)) (k n : ℕ) (p p' : List ℕ) (x r d : ℕ)
    → Joins E k n p
    → Keeps p p'
    → x < n
    → Rooted p' x r d
    → (e : ℕ) × Rooted p x r e
Rooted-before E k n p p' x r d h keeps less g =
    let was = h.rooted x less in
    let now = keeps.led x was.0 was.1.0 was.1.1 in
    let same : r ≡ was.0 = Rooted-unique p' x x r was.0 d now.0 refl g now.1 in
    (was.1.0, rw same was.1.1)

at-cons :
    (p : List ℕ) (i r : ℕ) (is roots : List ℕ)
    → (d : ℕ) × Rooted p i r d
    → ((m : ℕ) → m < length is → (d : ℕ) × Rooted p (at is m) (at roots m) d)
    → (m : ℕ) → m < suc (length is)
    → (d : ℕ) × Rooted p (at (i ∷ is) m) (at (r ∷ roots) m) d
unfolding at
at-cons p i r is roots first others zero less = first
at-cons p i r is roots first others (suc m) less = others m (omega arith)

-- the roots that are found for the indices `is`
roots_of-Rooted :
    (E : List (ℕ × ℕ)) (fuel n : ℕ) (is p : List ℕ)
    → Joins E fuel n p
    → All (λ i. i < n) is
    → (roots : List ℕ) × (roots_of fuel is p ≡ some roots)
      × (length roots ≡ length is)
      × ((m : ℕ) → m < length is → (d : ℕ) × Rooted p (at is m) (at roots m) d)
unfolding roots_of at
roots_of-Rooted E fuel n [] p h ok = ([], refl, refl, λ m less. absurd (omega arith))
roots_of-Rooted E fuel n (i ∷ is) p h ok =
    let up_i = h.rooted i ok.0 in
    let found =
      find-Rooted fuel p i up_i.0 up_i.1.0 (omega (arith, h.size, ok.0)) h.in_range up_i.1.1
        up_i.1.2 in
    let rest =
      roots_of-Rooted E fuel n is found.0 (Joins-Keeps E fuel n p found.0 found.2 h) ok.1 in
    (
      up_i.0 ∷ rest.0,
      roots_of-find fuel i is p found.0 up_i.0 rest.0 found.1 rest.1,
      ap suc rest.2,
      at-cons p i up_i.0 is rest.0 (up_i.1.0, up_i.1.1)
          (λ m inside.
            let later = rest.3 m inside in
            Rooted-before E fuel n p found.0 (at is m) (at rest.0 m) later.0 h found.2
              (at-All n m is ok.1 inside) later.1),
    )

All-Member :
    (n : ℕ) (E : List (ℕ × ℕ)) (a b : ℕ) → AreIndices n E → Member (a, b) E → (a < n) × (b < n)
All-Member n [] a b ok m = absurd m
All-Member n ((c, d) ∷ E) a b ok (inl e) =
    let first : a ≡ c = ap (λ (z : ℕ × ℕ). z.0) e in
    let second : b ≡ d = ap (λ (z : ℕ × ℕ). z.1) e in
    (omega (arith, first, ok.0.0), omega (arith, second, ok.0.1))
All-Member n (x ∷ E) a b ok (inr m) = All-Member n E a b ok.1 m

module _ (E : List (ℕ × ℕ)) (k n : ℕ) (p : List ℕ) (h : Joins E k n p) (ok : AreIndices n E) where
  Joined-lt : (a b : ℕ) → Joined E a b → ((a < n) → b < n) × ((b < n) → a < n)
  Joined-lt a b here = ((λ l. l), λ l. l)
  Joined-lt a b (along m) = let both = All-Member n E a b ok m in ((λ l. both.1), λ l. both.0)
  Joined-lt a b (back j) = let both = Joined-lt b a j in (both.1, both.0)
  Joined-lt a c (then_on {b} i j) =
      let one = Joined-lt a b i in
      let two = Joined-lt b c j in ((λ l. two.0 (one.0 l)), λ l. one.1 (two.1 l))

  Joined-root :
      (a b r s d e : ℕ) → Joined E a b → a < n → b < n → Rooted p a r d → Rooted p b s e → r ≡ s
  Joined-root a b r s d e here la lb f g = Rooted-unique p a a r s d e refl f g
  Joined-root a b r s d e (along m) la lb f g = h.merged a b r s d e m la lb f g
  Joined-root a b r s d e (back j) la lb f g = sym (Joined-root b a s r e d j lb la g f)
  Joined-root a c r s d e (then_on {b} i j) la lc f g =
      let lb = (Joined-lt a b i).0 la in
      let mid = h.rooted b lb in
      Joined-root a b r mid.0 d mid.1.0 i la lb f mid.1.1
      ∙ Joined-root b c mid.0 s mid.1.0 e j lb lc mid.1.1 g

  root-Joined : (a b r d e : ℕ) → a < n → b < n → Rooted p a r d → Rooted p b r e → Joined E a b
  root-Joined a b r d e la lb f g = then_on (h.joined a r d f la) (back (h.joined b r e g lb))

component_roots-unite :
    (n : ℕ) (edges : List (ℕ × ℕ)) (parent rank : List ℕ)
    → unite (length edges) edges (indices_from 0 n) (zeros n) ≡ some (parent, rank)
    → component_roots n edges ≡ roots_of (length edges) (indices_from 0 n) parent
unfolding component_roots partition
component_roots-unite n edges parent rank e = rw (e, component_roots) refl

-- For any number of vertices and any list of edges between them, with the fuel that it is given
-- every find of the union-find ends, a root is found for each vertex, and two vertices have the
-- same root if and only if they are connected by edges, whatever the direction of these.
-- each vertex has a root that it is connected to, and the connected ones have the same
pub component_roots_correct :
    (n : ℕ) (edges : List (ℕ × ℕ))
    → AreIndices n edges
    → (roots : List ℕ) × (component_roots n edges ≡ some roots)
      × (length roots ≡ n)
      × ((i : ℕ) → i < n → Joined edges i (at roots i))
      × ((i j : ℕ) → i < n → j < n → (at roots i ≡ at roots j) ↔ Joined edges i j)
component_roots_correct n edges ok =
    let count : 0 + length edges ≡ length edges = omega arith in
    let made =
      unite-Joins (length edges) [] edges 0 n (indices_from 0 n) (zeros n) (alone n) (omega arith)
        ok in
    let h : Joins edges (length edges) n made.0 = rw count at made.3 in
    let size = length-indices_from 0 n in
    let found =
      roots_of-Rooted edges (length edges) n (indices_from 0 n) made.0 h
        (All-indices_from n 0 n (omega arith)) in
    (
      found.0,
      component_roots-unite n edges made.0 made.1 made.2 ∙ found.1,
      found.2 ∙ size,
      λ i li.
          let ri = found.3 i (omega (arith, size)) in
          h.joined i (at found.0 i) ri.0 (rw (its_own n i li) at ri.1) li,
      λ i j li lj.
          let ri = found.3 i (omega (arith, size)) in
          let rj = found.3 j (omega (arith, size)) in
          let up_i : Rooted made.0 i (at found.0 i) ri.0 = rw (its_own n i li) at ri.1 in
          let up_j : Rooted made.0 j (at found.0 j) rj.0 = rw (its_own n j lj) at rj.1 in
          (
            (λ same.
                root-Joined edges (length edges) n made.0 h ok i j (at found.0 i) ri.0 rj.0 li lj
                  up_i (rw same up_j)),
            λ joined.
                Joined-root edges (length edges) n made.0 h ok i j (at found.0 i) (at found.0 j)
                  ri.0 rj.0 joined li lj up_i up_j,
          ),
    )
