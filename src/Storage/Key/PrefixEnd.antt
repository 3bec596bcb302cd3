-- ===== src/Storage/Key/PrefixEnd.antt =====
-- `prefix_end` of crates/storage/src/key.rs, and the range that it closes.
use dllb.Common.{
  ℕ, [], ◌∷◌, ◌++◌, Bytes, Bool, true, ◌&&◌, ltb, if◌then◌else◌, ◌≡◌, ◌≢◌, refl, arith, ◌+◌, ◌<◌,
  All, starts_with, ◌↔◌, List-cases, ◌∙◌, ap, sym,
}
use dllb.Common.Order.{lex_lt, lex_le}
use mathlib.Core.List.{reverse, reverse-append, reverse-cons, reverse-reverse}

-- the `while let` loop, over the vector with its last byte first
bump : Bytes → Bytes
bump [] = []
bump (last ∷ front) = if ltb last 0xff then (last + 1) ∷ front else bump front

unfoldable pub prefix_end : Bytes → Bytes
unfolding bump
prefix_end prefix = reverse (bump (reverse prefix))

-- The same from the front: the byte that is incremented is the last one below 0xff.
abbrev push_front : ℕ → Bytes → Bytes
push_front b [] = if ltb b 0xff then (b + 1) ∷ [] else []
push_front b (e ∷ es) = b ∷ e ∷ es

abbrev push_back : Bytes → ℕ → Bytes
push_back [] b = if ltb b 0xff then (b + 1) ∷ [] else []
push_back (e ∷ es) b = (e ∷ es) ++ b ∷ []

bump-append : (r : Bytes) (b : ℕ) → bump (r ++ b ∷ []) ≡ push_back (bump r) b
unfolding bump
bump-append [] b = refl
bump-append (x ∷ r) b = ground (arith, bump-append r b)

push_front-append : (b e : ℕ) (r : Bytes) → push_front b (r ++ e ∷ []) ≡ b ∷ (r ++ e ∷ [])
push_front-append b e [] = refl
push_front-append b e (x ∷ r) = refl

reverse-push_back : (r : Bytes) (b : ℕ) → reverse (push_back r b) ≡ push_front b (reverse r)
reverse-push_back [] b = ground arith
reverse-push_back (e ∷ es) b =
    reverse-append (e ∷ es) (b ∷ [])
    ∙ rw (reverse-cons e es) (sym (push_front-append b e (reverse es)))

prefix_end-cons : (b : ℕ) (p : Bytes) → prefix_end (b ∷ p) ≡ push_front b (prefix_end p)
unfolding prefix_end
prefix_end-cons b p =
    rw (reverse-cons b p) (rw bump-append (reverse-push_back (bump (reverse p)) b))

-- a byte string
abbrev pub IsBytes : Bytes → Type 0
IsBytes = All (λ b. b < 256)

-- The empty end stands for no bound.
abbrev pub before_end : Bytes → Bytes → Bool
before_end k [] = true
before_end k (e ∷ es) = lex_lt k (e ∷ es)

-- For byte strings, a key starts with a prefix exactly when it is not below the prefix and is
-- below the prefix's end, an empty end being no bound.
pub starts_with-range :
    (p k : Bytes)
    → IsBytes p
    → IsBytes k
    → starts_with k p ≡ (lex_le p k && before_end k (prefix_end p))
starts_with-range [] k hp hk = unfold prefix_end in refl
starts_with-range (b ∷ p) [] hp hk = refl
starts_with-range (b ∷ p) (c ∷ k) hp hk =
    rw prefix_end-cons (ground (arith, starts_with-range p k, List-cases (prefix_end p)))

-- The end of a byte string is empty exactly if all its bytes are 0xff.
pub prefix_end-nil : (p : Bytes) → IsBytes p → (prefix_end p ≡ []) ↔ All (λ b. b ≡ 255) p
prefix_end-nil [] h = unfold prefix_end in (λ _. tt, λ _. refl)
prefix_end-nil (b ∷ p) h =
    rw prefix_end-cons (ground (arith, prefix_end-nil p, List-cases (prefix_end p)))

pub prefix_end-append : (p : Bytes) (b : ℕ) → b < 255 → prefix_end (p ++ b ∷ []) ≡ p ++ (b + 1) ∷ []
unfolding prefix_end
prefix_end-append p b h = rw (reverse-append p (b ∷ [])) (
    ap reverse {x = bump (b ∷ reverse p)} {y = (b + 1) ∷ reverse p} (ground arith)
    ∙ reverse-cons (b + 1) (reverse p)
    ∙ ap (λ (l : Bytes). l ++ (b + 1) ∷ []) (reverse-reverse p))

pub before_end-ne : (k e : Bytes) → e ≢ [] → before_end k e ≡ lex_lt k e
before_end-ne k [] h = absurd (h refl)
before_end-ne k (b ∷ e) h = refl
