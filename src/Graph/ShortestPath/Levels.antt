-- ===== src/Graph/ShortestPath/Levels.antt =====
-- The order of the queue, the depth budget and the work left in the search of
-- crates/graph/src/path.rs.
use dllb.Common.{
  ℕ, suc, ◌+◌, ◌≤◌, ◌<◌, List, [], ◌∷◌, ◌++◌, Bytes, false, Option, none, some, ◌≡◌, refl, arith,
  length, All, Member, inl, inr, ◌⊎◌, beq_iff, beq_refl, ap, ◌∙◌, if◌then◌else◌,
}
use dllb.Graph.ShortestPath.{is_visited, over}
use dllb.Graph.ShortestPath.Trails.{Within}

-- first vertices of depth `k`, then of depth `k + 1`
abbrev pub Levels : ℕ → List (Bytes × ℕ) → Type 0
Levels k [] = Unit
Levels k ((v, d) ∷ queue) =
    ((d ≡ k) × Levels k queue) ⊎ ((d ≡ suc k) × All (λ (x : Bytes × ℕ). x.1 ≡ suc k) queue)

All-Levels :
    (k : ℕ) (queue : List (Bytes × ℕ)) → All (λ (x : Bytes × ℕ). x.1 ≡ k) queue → Levels k queue
All-Levels k [] h = tt
All-Levels k ((v, d) ∷ queue) h = inl (h.0, All-Levels k queue h.1)

All-push :
    (k : ℕ) (v : Bytes) (queue : List (Bytes × ℕ))
    → All (λ (x : Bytes × ℕ). x.1 ≡ k) queue
    → All (λ (x : Bytes × ℕ). x.1 ≡ k) (queue ++ (v, k) ∷ [])
All-push k v [] h = (refl, tt)
All-push k v (x ∷ queue) h = (h.0, All-push k v queue h.1)

pub Levels-push :
    (k : ℕ) (v : Bytes) (queue : List (Bytes × ℕ))
    → Levels k queue
    → Levels k (queue ++ (v, suc k) ∷ [])
Levels-push k v [] h = inr (refl, tt)
Levels-push k v ((u, d) ∷ queue) h = elim h [
  | inl same ↦ inl (same.0, Levels-push k v queue same.1)
  | inr next ↦ inr (next.0, All-push (suc k) v queue next.1)
]

pub Levels-pop :
    (k d : ℕ) (v : Bytes) (queue : List (Bytes × ℕ))
    → Levels k ((v, d) ∷ queue)
    → (k ≤ d) × Levels d queue
Levels-pop k d v queue h = elim h [
  | inl same ↦ (omega (arith, same.0), rw same.0 same.1)
  | inr next ↦ (omega (arith, next.0), rw next.0 (All-Levels (suc k) queue next.1))
]

All-Member :
    (k e : ℕ) (v : Bytes) (queue : List (Bytes × ℕ))
    → All (λ (x : Bytes × ℕ). x.1 ≡ k) queue
    → Member (v, e) queue
    → e ≡ k
All-Member k e v [] h m = absurd m
All-Member k e v (x ∷ queue) h (inl same) = ap (λ (y : Bytes × ℕ). y.1) same ∙ h.0
All-Member k e v (x ∷ queue) h (inr later) = All-Member k e v queue h.1 later

-- No vertex of the queue is less deep than its level.
pub Levels-le :
    (k e : ℕ) (v : Bytes) (queue : List (Bytes × ℕ)) → Levels k queue → Member (v, e) queue → k ≤ e
Levels-le k e v [] h m = absurd m
Levels-le k e v ((u, d) ∷ queue) h (inl same) =
    let depth : e ≡ d = ap (λ (y : Bytes × ℕ). y.1) same in
    elim h [ inl here ↦ omega (arith, here.0) | inr next ↦ omega (arith, next.0) ]
Levels-le k e v ((u, d) ∷ queue) h (inr later) = elim h [
  | inl here ↦ Levels-le k e v queue here.1 later
  | inr next ↦ omega (arith, All-Member (suc k) e v queue next.1 later)
]

-- the depth budget
pub over_below :
    (max_depth : Option ℕ) (d e : ℕ) → e ≤ d → over max_depth d ≡ false → over max_depth e ≡ false
over_below none d e h k = refl
over_below (some m) d e h k = ground arith

pub Within-over :
    (max_depth : Option ℕ) (d : ℕ) → over max_depth d ≡ false → Within max_depth (suc d)
Within-over none d h = tt
Within-over (some m) d h = ground arith

pub Within-zero : (max_depth : Option ℕ) → Within max_depth 0
Within-zero none = tt
Within-zero (some m) = omega arith

pub over-Within :
    (max_depth : Option ℕ) (n e : ℕ) → Within max_depth n → e < n → over max_depth e ≡ false
over-Within none n e h k = refl
over-Within (some m) n e h k = ground arith

-- the edges whose end was not visited
abbrev pub unseen : List Bytes → List (Bytes × Bytes) → ℕ
unseen visited [] = 0
unseen visited ((_, d) ∷ edges) = (if is_visited visited d then 0 else 1) + unseen visited edges

unseen-le :
    (nb : Bytes) (visited : List Bytes) (edges : List (Bytes × Bytes))
    → unseen (nb ∷ visited) edges ≤ unseen visited edges
unseen-le nb visited [] = omega arith
unseen-le nb visited ((s, d) ∷ edges) = ground (arith, unseen-le nb visited edges)

pub unseen-visit :
    (nb u : Bytes) (visited : List Bytes) (edges : List (Bytes × Bytes))
    → is_visited visited nb ≡ false
    → Member (u, nb) edges
    → suc (unseen (nb ∷ visited) edges) ≤ unseen visited edges
unseen-visit nb u visited [] h m = absurd m
unseen-visit nb u visited ((s, d) ∷ edges) h (inl same) =
    let end : nb ≡ d = ap (λ (y : Bytes × Bytes). y.1) same in
    ground (arith, unseen-le nb visited edges, beq_refl d, rw end at h, beq_iff nb d)
unseen-visit nb u visited ((s, d) ∷ edges) h (inr later) =
    ground (arith, unseen-visit nb u visited edges h later)

pub unseen-length :
    (visited : List Bytes) (edges : List (Bytes × Bytes)) → unseen visited edges ≤ length edges
unseen-length visited [] = omega arith
unseen-length visited ((s, d) ∷ edges) = ground (arith, unseen-length visited edges)
