-- ===== src/Common/Split.antt =====
-- `str::split_once` and `slice::splitn` at one byte.
use dllb.Common.Tests.{◌==◌, if◌then◌else◌}
use dllb.Common.Lists.{Bytes, contains}
use Prim.Native.Nat.{ℕ, zero, suc}
use mathlib.Core.Path.{◌≡◌, refl}
use mathlib.Core.Bool.{false}
use mathlib.Core.Option.{Option, none, some}
use mathlib.Core.Logic.{◌⊎◌, inl, inr}
use mathlib.Core.List.{List, [], ◌∷◌, ◌++◌}
use native.Mathlib.Omega.{arith}

-- the parts before and after the first `c`
unfoldable pub split_once : ℕ → Bytes → Option (Bytes × Bytes)
split_once c [] = none
split_once c (b ∷ s) =
    let rest = split_once c s in
    if b == c
    then some ([], s)
    else elim rest [ none ↦ none | some (before, after) ↦ some (b ∷ before, after) ]

-- at most n pieces; the last holds what is left
unfoldable pub splitn : ℕ → ℕ → Bytes → List Bytes
unfolding split_once
splitn zero c s = []
splitn (suc zero) c s = s ∷ []
splitn (suc (suc n)) c s = elim (split_once c s) [
  | none ↦ s ∷ []
  | some (piece, rest) ↦ piece ∷ splitn (suc n) c rest
]

pub split_once-append :
    (c : ℕ) (a s : Bytes) → contains a c ≡ false → split_once c (a ++ c ∷ s) ≡ some (a, s)
unfolding split_once
split_once-append c [] s h = ground arith
split_once-append c (b ∷ a) s h = ground (arith, split_once-append c a s)

pub split_once-eq-some :
    (c : ℕ) (s a r : Bytes)
    → split_once c s ≡ some (a, r)
    → (contains a c ≡ false) × (s ≡ a ++ c ∷ r)
unfolding split_once
split_once-eq-some c [] a r h = absurd (ground arith)
split_once-eq-some c (b ∷ s) [] r h = ground arith
split_once-eq-some c (b ∷ s) (x ∷ a) r h = ground (arith, split_once-eq-some c s a r)

pub split_once-eq-none : (c : ℕ) (s : Bytes) → split_once c s ≡ none → contains s c ≡ false
unfolding split_once
split_once-eq-none c [] h = refl
split_once-eq-none c (b ∷ s) h = ground (arith, split_once-eq-none c s)

-- One piece at a time.
pub splitn-append :
    (n c : ℕ) (a s : Bytes)
    → contains a c ≡ false
    → splitn (suc (suc n)) c (a ++ c ∷ s) ≡ a ∷ splitn (suc n) c s
unfolding splitn
splitn-append n c a s h = rw (split_once-append c a s h, splitn)

-- A split on what `split_once` finds.
pub split_once_cases :
    (c : ℕ) (s : Bytes)
    → (split_once c s ≡ none)
      ⊎ ((a : Bytes) × (r : Bytes) × (split_once c s ≡ some (a, r))
          × (contains a c ≡ false)
          × (s ≡ a ++ c ∷ r))
split_once_cases c s = go (split_once c s) refl
  where
    go :
        (o : Option (Bytes × Bytes))
        → split_once c s ≡ o
        → (split_once c s ≡ none)
          ⊎ ((a : Bytes) × (r : Bytes) × (split_once c s ≡ some (a, r))
              × (contains a c ≡ false)
              × (s ≡ a ++ c ∷ r))
    go none e = inl e
    go (some (a, r)) e =
        let (clean, whole) = split_once-eq-some c s a r e in inr (a, r, e, clean, whole)
