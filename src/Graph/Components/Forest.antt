-- ===== src/Graph/Components/Forest.antt =====
-- The trees of the parents in crates/graph/src/components.rs, and what path-halving and linking do to
-- them.
use dllb.Common.{
  ℕ, zero, suc, ◌≤◌, ◌<◌, List, [], ◌∷◌, true, false, ◌≡◌, refl, arith, length, Bool-cases, ◌==◌,
  inl, inr, ap, sym, ◌∙◌, if◌then◌else◌,
}
use dllb.Graph.Components.{at, set}

pub at-set :
    (xs : List ℕ) (i v j : ℕ) → i < length xs → at (set i v xs) j ≡ (if i == j then v else at xs j)
unfolding at set
at-set [] i v j h = absurd (omega arith)
at-set (x ∷ xs) zero v zero h = refl
at-set (x ∷ xs) zero v (suc j) h = ground arith
at-set (x ∷ xs) (suc i) v zero h = ground arith
at-set (x ∷ xs) (suc i) v (suc j) h = ground (arith, at-set xs i v j)

pub length-set : (xs : List ℕ) (i v : ℕ) → length (set i v xs) ≡ length xs
unfolding set
length-set [] i v = refl
length-set (x ∷ xs) zero v = refl
length-set (x ∷ xs) (suc i) v = ap suc (length-set xs i v)

-- `x` is led to the root `r` by `d` parents
pub data Rooted (parent : List ℕ) : ℕ → ℕ → ℕ → Type 0 where
  at_root : {x : ℕ} → at parent x ≡ x → Rooted parent x x 0
  up : {x p r d : ℕ} → at parent x ≡ p → Rooted parent p r d → Rooted parent x r (suc d)

pub Rooted-root : (parent : List ℕ) (x r d : ℕ) → Rooted parent x r d → at parent r ≡ r
Rooted-root parent x r d (at_root e) = e
Rooted-root parent x r d' (up {p} {d = d} e h) = Rooted-root parent p r d h

-- a root leads to itself only
pub Rooted-self :
    (parent : List ℕ) (x y r d : ℕ) → at parent x ≡ x → y ≡ x → Rooted parent y r d → r ≡ x
Rooted-self parent x y r d e same (at_root f) = same
Rooted-self parent x y r d' e same (up {p} {d = d} f h) =
    Rooted-self parent x p r d e (sym f ∙ (ap (at parent) same ∙ e)) h

pub Rooted-unique :
    (parent : List ℕ) (x y r s d e : ℕ) → x ≡ y → Rooted parent x r d → Rooted parent y s e → r ≡ s
Rooted-unique parent x y r s d e same (at_root f) k =
    sym (Rooted-self parent x y s e f (sym same) k)
Rooted-unique parent x y r s d' e same (up g h) (at_root f) =
    Rooted-self parent y x r d' f same (up g h)
Rooted-unique parent x y r s d' e' same (up {p} {d = d} f h) (up {p = q} {d = e} g k) =
    Rooted-unique parent p q r s d e (sym f ∙ (ap (at parent) same ∙ g)) h k

-- The chain of `y` after a write, no longer than it was.
abbrev pub Led : List ℕ → ℕ → ℕ → ℕ → Type 0
Led parent y r d = (e : ℕ) × Rooted parent y r e × (e ≤ d)

module _ (parent : List ℕ) (x : ℕ) (inside : x < length parent) where
  abbrev pub halved : List ℕ
  halved = set x (at parent (at parent x)) parent

  at-halved : (y : ℕ) → at halved y ≡ (if x == y then at parent (at parent x) else at parent y)
  at-halved y = at-set parent x (at parent (at parent x)) y inside

  pub at_root-halved : (r : ℕ) → at parent r ≡ r → at halved r ≡ r
  at_root-halved r e = elim (Bool-cases (x == r)) [
    | inr f ↦ at-halved r ∙ rw f e
    | inl t ↦ let same : x ≡ r = ground arith in at-halved r ∙ rw t (rw same (ap (at parent) e ∙ e))
  ]

  pub halved-here : (y : ℕ) → (x == y) ≡ true → at halved y ≡ at parent (at parent y)
  halved-here y t =
      let same : x ≡ y = ground arith in at-halved y ∙ rw t (ap (λ z. at parent (at parent z)) same)

  halved-there : (y : ℕ) → (x == y) ≡ false → at halved y ≡ at parent y
  halved-there y f = at-halved y ∙ rw f refl

  pub Led-halved : (y r d : ℕ) → Rooted parent y r d → Led halved y r d
  Led-halved y r d (at_root e) = (0, at_root (at_root-halved y e), omega arith)
  Led-halved y r d (up e (at_root f)) = (
    1,
    up
        (elim (Bool-cases (x == y)) [
          | inl t ↦ halved-here y t ∙ (ap (at parent) e ∙ f)
          | inr n ↦ halved-there y n ∙ e
        ])
        (at_root (at_root-halved r f)),
    omega arith,
  )
  Led-halved y r d (up {p = p} e (up {p = q} {d = d'} f h)) = elim (Bool-cases (x == y)) [
    | inl t ↦
        let rest = Led-halved q r d' h in
        (suc rest.0, up (halved-here y t ∙ (ap (at parent) e ∙ f)) rest.1, omega (arith, rest.2))
    | inr n ↦
        let rest = Led-halved p r (suc d') (up f h) in
        (suc rest.0, up (halved-there y n ∙ e) rest.1, omega (arith, rest.2))
  ]

self_test : (a : ℕ) → (a == a) ≡ true
self_test a = ground arith

-- A root `ra` is put under another root `rb`.
module _ (parent : List ℕ) (ra rb : ℕ) (inside : ra < length parent) (other : (ra == rb) ≡ false)
    (root_b : at parent rb ≡ rb) where
  abbrev pub attached : List ℕ
  attached = set ra rb parent

  abbrev pub new_root : ℕ → ℕ
  new_root r = if ra == r then rb else r

  at-attached : (y : ℕ) → at attached y ≡ (if ra == y then rb else at parent y)
  at-attached y = at-set parent ra rb y inside

  at_root-attached : at attached rb ≡ rb
  at_root-attached = at-attached rb ∙ rw other root_b

  pub Led-attached :
      (y r d : ℕ) → at parent ra ≡ ra → Rooted parent y r d → Led attached y (new_root r) (suc d)
  Led-attached y r d root_a (at_root e) = elim (Bool-cases (ra == y)) [
    | inl t ↦ rw t (1, up (at-attached y ∙ rw t refl) (at_root at_root-attached), omega arith)
    | inr f ↦ rw f (0, at_root (at-attached y ∙ rw f e), omega arith)
  ]
  Led-attached y r d' root_a (up {p = p} {d = d} e h) = elim (Bool-cases (ra == y)) [
    | inl t ↦
        let same : y ≡ ra = ground arith in
        let end : r ≡ ra = Rooted-self parent ra y r (suc d) root_a same (up e h) in
        rw end (
          rw (self_test ra)
            (1, up (at-attached y ∙ rw t refl) (at_root at_root-attached), omega arith))
    | inr f ↦
        let rest = Led-attached p r d root_a h in
        (suc rest.0, up (at-attached y ∙ rw f e) rest.1, omega (arith, rest.2))
  ]
