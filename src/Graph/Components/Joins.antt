-- ===== src/Graph/Components/Joins.antt =====
-- What the trees of crates/graph/src/components.rs stand for: the components of the edges so far.
use dllb.Common.{ℕ, ◌<◌, List, ◌≡◌, refl, arith, length, sym, ◌∙◌, Member}
use dllb.Graph.Components.Forest.{Rooted, Rooted-unique, Led}
use dllb.Graph.Components.Find.{InRange, Keeps}

-- connected by edges, whatever their direction
pub data Joined {A : Type 0} (edges : List (A × A)) : A → A → Type 0 where
  here : {a : A} → Joined edges a a
  along : {a b : A} → Member (a, b) edges → Joined edges a b
  back : {a b : A} → Joined edges a b → Joined edges b a
  then_on : {a b c : A} → Joined edges a b → Joined edges b c → Joined edges a c

pub Joined-more :
    (E F : List (ℕ × ℕ)) (a b : ℕ)
    → ((x : ℕ × ℕ) → Member x E → Member x F)
    → Joined E a b
    → Joined F a b
Joined-more E F a b more here = here
Joined-more E F a b more (along m) = along (more (a, b) m)
Joined-more E F a b more (back h) = back (Joined-more E F b a more h)
Joined-more E F a c more (then_on {b} h k) =
    then_on (Joined-more E F a b more h) (Joined-more E F b c more k)

-- The trees stand for the components of the edges so far.
pub record Joins (E : List (ℕ × ℕ)) (k n : ℕ) (parent : List ℕ) : Type 0 where
  pub size : length parent ≡ n
  pub in_range : InRange parent
  pub rooted : (x : ℕ) → x < n → (r : ℕ) × Led parent x r k
  pub joined : (x r d : ℕ) → Rooted parent x r d → x < n → Joined E x r
  pub merged :
      (a b r s d e : ℕ)
      → Member (a, b) E
      → a < n
      → b < n
      → Rooted parent a r d
      → Rooted parent b s e
      → r ≡ s

module _ (E : List (ℕ × ℕ)) (k n : ℕ) (p p' : List ℕ) where
  pub Joins-Keeps : Keeps p p' → Joins E k n p → Joins E k n p'
  Joins-Keeps keeps h = record {
    size = keeps.same_length ∙ h.size;
    in_range = keeps.in_range;
    rooted = λ x less.
        let was = h.rooted x less in
        let now = keeps.led x was.0 was.1.0 was.1.1 in
        (was.0, (now.0, now.1, omega (arith, now.2, was.1.2)));
    joined = λ x r d g less.
        let was = h.rooted x less in
        rw (old_root x r d g less) (h.joined x was.0 was.1.0 was.1.1 less);
    merged = λ a b r s d e m la lb f g.
        let wa = h.rooted a la in
        let wb = h.rooted b lb in
        old_root a r d f la
        ∙ (h.merged a b wa.0 wb.0 wa.1.0 wb.1.0 m la lb wa.1.1 wb.1.1 ∙ sym (old_root b s e g lb));
  }
    where
      old_root : (x r d : ℕ) → Rooted p' x r d → (less : x < n) → r ≡ (h.rooted x less).0
      old_root x r d g less =
          let was = h.rooted x less in
          let now = keeps.led x was.0 was.1.0 was.1.1 in
          Rooted-unique p' x x r was.0 d now.0 refl g now.1
