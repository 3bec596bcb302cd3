-- ===== src/Graph/Components/Find.antt =====
-- `find` and `union` of crates/graph/src/components.rs.
use dllb.Common.{
  ℕ, zero, suc, ◌≤◌, ◌<◌, List, true, false, some, ◌≡◌, refl, arith, length, Bool-cases, ◌==◌, inl,
  inr, ap, sym, ◌∙◌,
}
use dllb.Graph.Components.{at, set, find}
use dllb.Graph.Components.Forest.{
  at-set, length-set, Rooted, at_root, up, Rooted-self, Led, halved, halved-here, at_root-halved,
  Led-halved,
}

-- every parent is an index
abbrev pub InRange : List ℕ → Type 0
InRange parent = (i : ℕ) → i < length parent → at parent i < length parent

pub InRange-set :
    (parent : List ℕ) (i v : ℕ)
    → i < length parent
    → v < length parent
    → InRange parent
    → InRange (set i v parent)
InRange-set parent i v inside small h j less =
    ground (arith, at-set parent i v j inside, length-set parent i v, h j)

-- The chains lead to the roots they led to, and are no longer.
pub record Keeps (parent parent' : List ℕ) : Type 0 where
  pub same_length : length parent' ≡ length parent
  pub in_range : InRange parent'
  pub led : (y r d : ℕ) → Rooted parent y r d → Led parent' y r d

pub Keeps-trans : (a b c : List ℕ) → Keeps a b → Keeps b c → Keeps a c
Keeps-trans a b c h k = record {
  same_length = k.same_length ∙ h.same_length;
  in_range = k.in_range;
  led = λ y r d g.
      let one = h.led y r d g in
      let two = k.led y r one.0 one.1 in (two.0, two.1, omega (arith, one.2, two.2));
}

Keeps-refl : (parent : List ℕ) → InRange parent → Keeps parent parent
Keeps-refl parent range = record {
  same_length = refl;
  in_range = range;
  led = λ y r d h. (d, h, omega arith);
}

Keeps-halved :
    (parent : List ℕ) (x : ℕ) (inside : x < length parent)
    → InRange parent
    → Keeps parent (halved parent x inside)
Keeps-halved parent x inside range = record {
  same_length = length-set parent x (at parent (at parent x));
  in_range =
      InRange-set parent x (at parent (at parent x)) inside (range (at parent x) (range x inside))
        range;
  led = Led-halved parent x inside;
}

Rooted-zero : (parent : List ℕ) (x r d : ℕ) → Rooted parent x r d → d ≤ 0 → at parent x ≡ x
Rooted-zero parent x r d (at_root e) le = e
Rooted-zero parent x r d' (up e h) le = absurd (omega arith)

-- after a round there are two parents less to follow
halved-Led :
    (fuel : ℕ) (parent : List ℕ) (x r d : ℕ) (inside : x < length parent)
    → Rooted parent x r d
    → (at parent x == x) ≡ false
    → d ≤ suc fuel
    → Led (halved parent x inside) (at (halved parent x inside) x) r fuel
halved-Led fuel parent x r d inside (at_root e) f le = absurd (ground arith)
halved-Led fuel parent x r d inside (up e (at_root g)) f le =
    let end : at (halved parent x inside) x ≡ r =
      halved-here parent x inside x (ground arith) ∙ (ap (at parent) e ∙ g) in
    rw end (0, at_root (at_root-halved parent x inside r g), omega arith)
halved-Led fuel parent x r d inside (up e (up {p = q} {d = d'} g h)) f le =
    let end : at (halved parent x inside) x ≡ q =
      halved-here parent x inside x (ground arith) ∙ (ap (at parent) e ∙ g) in
    let rest = Led-halved parent x inside q r d' h in rw end (rest.0, rest.1, omega (arith, rest.2))

stays :
    (parent : List ℕ) (x r d : ℕ)
    → at parent x ≡ x
    → Rooted parent x r d
    → InRange parent
    → (parent' : List ℕ) × (find 0 parent x ≡ some (r, parent')) × Keeps parent parent'
unfolding find
stays parent x r d e h range =
    let t : (at parent x == x) ≡ true = ground arith in
    (
      parent,
      rw t (ap (λ z. some (z, parent)) (sym (Rooted-self parent x x r d e refl h))),
      Keeps-refl parent range,
    )

pub find-Rooted :
    (fuel : ℕ) (parent : List ℕ) (x r d : ℕ)
    → x < length parent
    → InRange parent
    → Rooted parent x r d
    → d ≤ fuel
    → (parent' : List ℕ) × (find fuel parent x ≡ some (r, parent')) × Keeps parent parent'
unfolding find
find-Rooted zero parent x r d inside range h le =
    stays parent x r d (Rooted-zero parent x r d h le) h range
find-Rooted (suc fuel) parent x r d inside range h le = elim (Bool-cases (at parent x == x)) [
  | inl t ↦
      let root : at parent x ≡ x = ground arith in
      rw t (
        parent,
        ap (λ z. some (z, parent)) (sym (Rooted-self parent x x r d root refl h)),
        Keeps-refl parent range,
      )
  | inr f ↦
      let p' = halved parent x inside in
      let now = halved-Led fuel parent x r d inside h f le in
      let step = Keeps-halved parent x inside range in
      let rest =
        find-Rooted fuel p' (at p' x) r now.0 (step.in_range x (omega (arith, step.same_length)))
          step.in_range now.1 now.2 in
      rw f (rest.0, rest.1, Keeps-trans parent p' rest.0 step rest.2)
]
