-- ===== src/Common/Order.antt =====
-- The lexicographic order of byte strings, as Rust compares `&[u8]`.
use dllb.Common.Tests.{Bool-cases, ltb, ◌==◌, if◌then◌else◌}
use dllb.Common.Lists.{Bytes}
use mathlib.Core.Path.{◌≡◌, refl}
use mathlib.Core.Logic.{inl, inr}
use mathlib.Core.Bool.{Bool, true, false, not}
use mathlib.Core.List.{[], ◌∷◌, ◌++◌}
use native.Mathlib.Omega.{arith}

abbrev pub lex_lt : Bytes → Bytes → Bool
lex_lt a [] = false
lex_lt [] (_ ∷ _) = true
lex_lt (x ∷ a) (y ∷ b) = if ltb x y then true else if x == y then lex_lt a b else false

-- `a <= b`
abbrev pub lex_le : Bytes → Bytes → Bool
lex_le a b = not (lex_lt b a)

pub lex_lt_irrefl : (a : Bytes) → lex_lt a a ≡ false
lex_lt_irrefl [] = refl
lex_lt_irrefl (x ∷ a) = ground (arith, lex_lt_irrefl a)

pub lex_lt_trans : (a b c : Bytes) → lex_lt a b ≡ true → lex_lt b c ≡ true → lex_lt a c ≡ true
lex_lt_trans a [] c h k = absurd (ground arith)
lex_lt_trans a (y ∷ b) [] h k = k
lex_lt_trans [] (y ∷ b) (z ∷ c) h k = refl
lex_lt_trans (x ∷ a) (y ∷ b) (z ∷ c) h k = ground (arith, lex_lt_trans a b c)

pub lex_lt_total : (a b : Bytes) → lex_lt a b ≡ false → lex_lt b a ≡ false → a ≡ b
lex_lt_total [] [] h k = refl
lex_lt_total [] (y ∷ b) h k = absurd (ground arith)
lex_lt_total (x ∷ a) [] h k = absurd (ground arith)
lex_lt_total (x ∷ a) (y ∷ b) h k = ground (arith, lex_lt_total a b)

pub lex_lt-append_left : (p a b : Bytes) → lex_lt (p ++ a) (p ++ b) ≡ lex_lt a b
lex_lt-append_left [] a b = refl
lex_lt-append_left (x ∷ p) a b = ground (arith, lex_lt-append_left p a b)

pub lex_le-lt_trans : (a b c : Bytes) → lex_le a b ≡ true → lex_lt b c ≡ true → lex_lt a c ≡ true
lex_le-lt_trans a b c h k = elim (Bool-cases (lex_lt a b)) [
  | inl lt ↦ lex_lt_trans a b c lt k
  | inr ge ↦ rw (lex_lt_total a b ge (ground arith)) k
]

pub lex_lt_asymm : (a b : Bytes) → lex_lt a b ≡ true → lex_lt b a ≡ false
lex_lt_asymm a b h = elim (Bool-cases (lex_lt b a)) [
  | inl k ↦ absurd (ground (arith, lex_lt_trans a b a h k, lex_lt_irrefl a))
  | inr k ↦ k
]
