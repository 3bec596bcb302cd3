-- ===== src/Common/Lists.antt =====
-- Lists under native indices, and byte strings. A Rust `&[u8]`, `Vec<u8>` or `String` is the list
-- of its bytes; a `String` is one whose bytes are UTF-8.
use Prim.Native.Nat.{ℕ, zero, suc, ◌+◌}
use mathlib.Core.Path.{◌≡◌, refl, ap, ◌∙◌}
use mathlib.Core.Logic.{◌⊎◌, inl, inr, ◌↔◌}
use mathlib.Core.Bool.{Bool, true, false, ◌&&◌, ◌||◌}
use mathlib.Core.Option.{Option, none, some}
use mathlib.Core.List.{List, [], ◌∷◌, ◌++◌}
use native.Mathlib.Omega.{arith}
use dllb.Common.Tests.{◌==◌, if◌then◌else◌, Bool-cases}

abbrev pub Bytes : Type 0
Bytes = List ℕ

module _ {ℓ} {A : Type ℓ} where
  abbrev pub length : List A → ℕ
  length [] = 0
  length (_ ∷ xs) = suc (length xs)

  abbrev pub drop : ℕ → List A → List A
  drop zero xs = xs
  drop (suc n) [] = []
  drop (suc n) (_ ∷ xs) = drop n xs

  pub length-append : (xs ys : List A) → length (xs ++ ys) ≡ length xs + length ys
  length-append [] ys = omega arith
  length-append (x ∷ xs) ys = omega (arith, length-append xs ys)

  pub drop-length_append : (xs ys : List A) → drop (length xs) (xs ++ ys) ≡ ys
  drop-length_append [] ys = refl
  drop-length_append (x ∷ xs) ys = drop-length_append xs ys

  pub List-cases : (xs : List A) → (xs ≡ []) ⊎ ((x : A) × (rest : List A) × (xs ≡ x ∷ rest))
  List-cases [] = inl refl
  List-cases (x ∷ xs) = inr (x, xs, refl)

  -- `Iterator::any` and `Iterator::filter` with a closure
  abbrev pub any : (A → Bool) → List A → Bool
  any p [] = false
  any p (x ∷ xs) = p x || any p xs

  abbrev pub keep : (A → Bool) → List A → List A
  keep p [] = []
  keep p (x ∷ xs) = if p x then x ∷ keep p xs else keep p xs

  abbrev pub All {κ} : (A → Type κ) → List A → Type κ
  All P [] = Unit
  All P (x ∷ xs) = P x × All P xs

pub Option-cases {ℓ} : {A : Type ℓ} (o : Option A) → (o ≡ none) ⊎ ((a : A) × (o ≡ some a))
Option-cases none = inl refl
Option-cases (some a) = inr (a, refl)

module _ {ℓ κ} {A : Type ℓ} (P : A → Type κ) where
  pub All-append_left : (xs ys : List A) → All P (xs ++ ys) → All P xs
  All-append_left [] ys h = tt
  All-append_left (x ∷ xs) ys h = (h.0, All-append_left xs ys h.1)

  pub All-append_right : (xs ys : List A) → All P (xs ++ ys) → All P ys
  All-append_right [] ys h = h
  All-append_right (x ∷ xs) ys h = All-append_right xs ys h.1

  pub All-append : (xs ys : List A) → All P xs → All P ys → All P (xs ++ ys)
  All-append [] ys h k = k
  All-append (x ∷ xs) ys h k = (h.0, All-append xs ys h.1 k)

-- membership, with its place
module _ {A : Type 0} where
  abbrev pub Member : A → List A → Type 0
  Member a [] = ⊥
  Member a (x ∷ xs) = (a ≡ x) ⊎ Member a xs

  pub Member-append : (a : A) (xs ys : List A) → Member a (xs ++ ys) ↔ (Member a xs ⊎ Member a ys)
  Member-append a [] ys = (inr, λ h. elim h [ inl m ↦ absurd m | inr m ↦ m ])
  Member-append a (x ∷ xs) ys =
      let ih = Member-append a xs ys in
      (
        λ h. elim h [
          | inl e ↦ inl (inl e)
          | inr m ↦ elim (ih.0 m) [ inl l ↦ inl (inr l) | inr r ↦ inr r ]
        ],
        λ h. elim h [
          | inl l ↦ elim l [ inl e ↦ inl e | inr m ↦ inr (ih.1 (inl m)) ]
          | inr m ↦ inr (ih.1 (inr m))
        ],
      )

  pub Member-keep :
      (p : A → Bool) (a : A) (xs : List A) → Member a (keep p xs) ↔ (Member a xs × (p a ≡ true))
  Member-keep p a [] = (λ h. absurd h, λ h. absurd h.0)
  Member-keep p a (x ∷ xs) = elim (Bool-cases (p x)) [
    | inl t ↦ rw t (
      λ h. elim h [
        | inl e ↦ (inl e, ap p e ∙ t)
        | inr m ↦ let (n, q) = (Member-keep p a xs).0 m in (inr n, q)
      ],
      λ h. elim h.0 [ inl e ↦ inl e | inr m ↦ inr ((Member-keep p a xs).1 (m, h.1)) ],
    )
    | inr f ↦ rw f (
      λ m. let (n, q) = (Member-keep p a xs).0 m in (inr n, q),
      λ h. elim h.0 [
        | inl e ↦ absurd (ground (arith, ap p e))
        | inr m ↦ (Member-keep p a xs).1 (m, h.1)
      ],
    )
  ]

-- equality of byte strings
abbrev pub beq : Bytes → Bytes → Bool
beq [] [] = true
beq [] (_ ∷ _) = false
beq (_ ∷ _) [] = false
beq (x ∷ xs) (y ∷ ys) = (x == y) && beq xs ys

pub beq_iff : (a b : Bytes) → (beq a b ≡ true) ↔ (a ≡ b)
beq_iff [] [] = (λ _. refl, λ _. refl)
beq_iff [] (_ ∷ _) = (λ h. cc, λ h. cc)
beq_iff (_ ∷ _) [] = (λ h. cc, λ h. cc)
beq_iff (x ∷ xs) (y ∷ ys) = ground (arith, beq_iff xs ys)

pub beq_refl : (a : Bytes) → beq a a ≡ true
beq_refl a = (beq_iff a a).1 refl

pub beq_sym : (a b : Bytes) → beq a b ≡ beq b a
beq_sym a b = ground (arith, beq_iff a b, beq_iff b a)

-- `slice.contains(&b)`
abbrev pub contains : Bytes → ℕ → Bool
contains [] b = false
contains (x ∷ xs) b = (x == b) || contains xs b

-- `k.starts_with(p)`
abbrev pub starts_with : Bytes → Bytes → Bool
starts_with k [] = true
starts_with [] (_ ∷ _) = false
starts_with (x ∷ k) (y ∷ p) = (x == y) && starts_with k p

pub starts_with-append : (p k : Bytes) → starts_with (p ++ k) p ≡ true
starts_with-append [] k = refl
starts_with-append (x ∷ p) k = ground (arith, starts_with-append p k)

pub starts_with_split : (k p : Bytes) → starts_with k p ≡ true → (rest : Bytes) × (k ≡ p ++ rest)
starts_with_split k [] h = (k, refl)
starts_with_split [] (_ ∷ _) h = absurd (ground arith)
starts_with_split (x ∷ k) (y ∷ p) h =
    let (rest, e) = starts_with_split k p (ground arith) in (rest, ground arith)
