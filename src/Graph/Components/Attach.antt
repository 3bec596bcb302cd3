-- ===== src/Graph/Components/Attach.antt =====
-- A union puts one tree under another (crates/graph/src/components.rs).
use dllb.Common.{
  ℕ, suc, ◌<◌, List, false, ◌≡◌, refl, arith, length, Bool-cases, ◌==◌, inl, inr, ◌⊎◌, ap, sym, ◌∙◌,
  Member, if◌then◌else◌,
}
use dllb.Graph.Components.{at, set}
use dllb.Graph.Components.Forest.{length-set, Rooted, Rooted-root, Rooted-unique, Led, Led-attached}
use dllb.Graph.Components.Find.{InRange-set}
use dllb.Graph.Components.Joins.{Joined, back, then_on, Joined-more, Joins}

-- A class is put under another, and `F` has the edges of `E` and one between `u` and `v`.
module _ (E F : List (ℕ × ℕ)) (k n : ℕ) (parent : List ℕ) (h : Joins E k n parent)
    (u v ru rv du dv : ℕ) (less_u : u < n) (less_v : v < n) (up_u : Rooted parent u ru du)
    (up_v : Rooted parent v rv dv) (more : (x : ℕ × ℕ) → Member x E → Member x F)
    (connected : Joined F u v)
    (fewer : (a b : ℕ)
      → Member (a, b) F
      → Member (a, b) E ⊎ (((a ≡ u) × (b ≡ v)) ⊎ ((a ≡ v) × (b ≡ u))))
    (inside : ru < length parent) (small : rv < length parent) (other : (ru == rv) ≡ false) where
  root_u : at parent ru ≡ ru
  root_u = Rooted-root parent u ru du up_u

  root_v : at parent rv ≡ rv
  root_v = Rooted-root parent v rv dv up_v

  abbrev pub after : List ℕ
  after = set ru rv parent

  renewed :
      (x r : ℕ) (d : ℕ) → Rooted parent x r d → Led after x (if ru == r then rv else r) (suc d)
  renewed x r d g = Led-attached parent ru rv inside other root_v x r d root_u g

  -- the root after, from the root before
  same_new :
      (x r r' d d' : ℕ)
      → Rooted parent x r d
      → Rooted after x r' d'
      → r' ≡ (if ru == r then rv else r)
  same_new x r r' d d' g g' =
      let now = renewed x r d g in
      Rooted-unique after x x r' (if ru == r then rv else r) d' now.0 refl g' now.1

  new_joined : (x r d : ℕ) → x < n → Rooted parent x r d → Joined F x (if ru == r then rv else r)
  new_joined x r d less g =
      let old = Joined-more E F x r more (h.joined x r d g less) in
      elim (Bool-cases (ru == r)) [
        | inr f ↦ rw f old
        | inl t ↦
            let same : r ≡ ru = ground arith in
            let to_u = Joined-more E F u ru more (h.joined u ru du up_u less_u) in
            let to_v = Joined-more E F v rv more (h.joined v rv dv up_v less_v) in
            rw t (then_on (rw same at old) (then_on (back to_u) (then_on connected to_v)))
      ]

  -- both ends of the new edge lead to the same root
  end_u : (s e : ℕ) → Rooted after u s e → s ≡ rv
  end_u s e g = same_new u ru s du e up_u g ∙ ground arith

  end_v : (s e : ℕ) → Rooted after v s e → s ≡ rv
  end_v s e g = same_new v rv s dv e up_v g ∙ rw other refl

  pub Joins-after : Joins F (suc k) n after
  Joins-after = record {
    size = length-set parent ru rv ∙ h.size;
    in_range = InRange-set parent ru rv inside small h.in_range;
    rooted = λ x less.
        let was = h.rooted x less in
        let now = renewed x was.0 was.1.0 was.1.1 in
        ((if ru == was.0 then rv else was.0), (now.0, now.1, omega (arith, now.2, was.1.2)));
    joined = λ x r d g less.
        let was = h.rooted x less in
        rw (same_new x was.0 r was.1.0 d was.1.1 g) (new_joined x was.0 was.1.0 less was.1.1);
    merged = λ a b r s d e m la lb f g. elim (fewer a b m) [
      | inl old ↦
          let wa = h.rooted a la in
          let wb = h.rooted b lb in
          let same = h.merged a b wa.0 wb.0 wa.1.0 wb.1.0 old la lb wa.1.1 wb.1.1 in
          same_new a wa.0 r wa.1.0 d wa.1.1 f
          ∙ (ap (λ z. if ru == z then rv else z) same ∙ sym (same_new b wb.0 s wb.1.0 e wb.1.1 g))
      | inr new ↦ elim new [
        | inl (x, y) ↦ end_u r d (rw x at f) ∙ sym (end_v s e (rw y at g))
        | inr (x, y) ↦ end_v r d (rw x at f) ∙ sym (end_u s e (rw y at g))
      ]
    ];
  }
