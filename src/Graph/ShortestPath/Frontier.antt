-- ===== src/Graph/ShortestPath/Frontier.antt =====
-- What the search of crates/graph/src/path.rs keeps true of the vertices it has discovered.
use dllb.Common.{
  ℕ, zero, suc, ◌≤◌, ◌<◌, List, [], ◌∷◌, ◌++◌, Bytes, true, false, Option, ◌≡◌, refl, arith, length,
  length-append, All-append, Member, Member-append, inl, inr, beq, beq_iff, beq_refl, Bool-cases,
  ap,
}
use dllb.Common.Map.{lookup-insert}
use dllb.Graph.ShortestPath.{Search, is_visited, discover, over}
use dllb.Graph.ShortestPath.Trails.{Trail, source, extend, Trail-nonempty}
use dllb.Graph.ShortestPath.Chains.{Chain, link, AllVisited, AllVisited-cons, Chain-insert}

-- Vertex `v` was discovered at depth `d`, along `path`.
pub record Discovered (edges : List (Bytes × Bytes)) (src : Bytes) (s : Search) (v : Bytes) (d : ℕ)
    : Type 0 where
  pub seen : is_visited s.visited v ≡ true
  pub bounded : d < length s.visited
  pub path : List Bytes
  pub chain : Chain s.parent v path
  pub trail : Trail edges src path v
  pub long : length path ≡ suc d
  pub all : AllVisited s.visited path

module _ (edges : List (Bytes × Bytes)) (src : Bytes) (s : Search) (nb node : Bytes)
    (depth : ℕ) where
  pub Discovered-discover :
      (v : Bytes) (d : ℕ)
      → is_visited s.visited nb ≡ false
      → Discovered edges src s v d
      → Discovered edges src (discover nb node depth s) v d
  Discovered-discover v d new h = record {
    seen = ground (arith, h.seen);
    bounded = omega (arith, h.bounded);
    path = h.path;
    chain = Chain-insert s.parent s.visited nb node v h.path new h.chain h.all;
    trail = h.trail;
    long = h.long;
    all = AllVisited-cons nb s.visited h.path h.all;
  }

  pub Discovered-new :
      is_visited s.visited nb ≡ false
      → Member (node, nb) edges
      → Discovered edges src s node depth
      → Discovered edges src (discover nb node depth s) nb (suc depth)
  Discovered-new new edge h = record {
    seen = ground (arith, beq_refl nb);
    bounded = omega (arith, h.bounded);
    path = h.path ++ nb ∷ [];
    chain =
        link (ground (arith, lookup-insert nb nb node s.parent, beq_refl nb))
          (Chain-insert s.parent s.visited nb node node h.path new h.chain h.all);
    trail = extend h.trail edge;
    long = omega (arith, length-append h.path (nb ∷ []), h.long);
    all =
        All-append (λ u. is_visited (nb ∷ s.visited) u ≡ true) h.path (nb ∷ [])
          (AllVisited-cons nb s.visited h.path h.all) (ground (arith, beq_refl nb), tt);
  }

-- `arrivals` is every vertex that was put into the queue, `done` those that were expanded.
pub record Inv (edges : List (Bytes × Bytes)) (src dst : Bytes) (max_depth : Option ℕ)
    (done arrivals : List (Bytes × ℕ)) (s : Search) : Type 0 where
  pub discovered : (v : Bytes) (d : ℕ) → Member (v, d) arrivals → Discovered edges src s v d
  pub listed : (v : Bytes) → is_visited s.visited v ≡ true → (d : ℕ) × Member (v, d) arrivals
  pub closed :
      (u v : Bytes) (d : ℕ)
      → Member (u, d) done
      → over max_depth d ≡ false
      → Member (u, v) edges
      → (e : ℕ) × Member (v, e) arrivals × (e ≤ suc d)
  pub begun : Member (src, 0) arrivals
  pub goal : is_visited s.visited dst ≡ false

module _ (edges : List (Bytes × Bytes)) (src dst : Bytes) (max_depth : Option ℕ)
    (done arrivals : List (Bytes × ℕ)) (s : Search) where
  pub Inv-discover :
      (nb node : Bytes) (depth : ℕ)
      → is_visited s.visited nb ≡ false
      → beq nb dst ≡ false
      → Member (node, nb) edges
      → Discovered edges src s node depth
      → Inv edges src dst max_depth done arrivals s
      → Inv edges src dst max_depth done
          (arrivals ++ (nb, suc depth) ∷ [])
          (discover nb node depth s)
  Inv-discover nb node depth new other edge from h =
      let more : List (Bytes × ℕ) = arrivals ++ (nb, suc depth) ∷ [] in
      let grow : (x : Bytes × ℕ) → Member x arrivals → Member x more =
        λ x m. (Member-append x arrivals ((nb, suc depth) ∷ [])).1 (inl m) in
      record {
        discovered = λ v d m. elim ((Member-append (v, d) arrivals ((nb, suc depth) ∷ [])).0 m) [
          | inl old ↦ Discovered-discover edges src s nb node depth v d new (h.discovered v d old)
          | inr last ↦ elim last [
            | inl same ↦ rw (ap (λ (x : Bytes × ℕ). x.0) same) (
                rw (ap (λ (x : Bytes × ℕ). x.1) same)
                  (Discovered-new edges src s nb node depth new edge from))
            | inr no_more ↦ absurd no_more
          ]
        ];
        listed = λ v t. elim (Bool-cases (beq nb v)) [
          | inl here ↦ (
            suc depth,
            (Member-append (v, suc depth) arrivals ((nb, suc depth) ∷ [])).1
                (inr (inl (rw ((beq_iff nb v).0 here) refl))),
          )
          | inr f ↦ let old = h.listed v (ground arith) in (old.0, grow (v, old.0) old.1)
        ];
        closed = λ u v d m below e.
            let old = h.closed u v d m below e in (old.0, grow (v, old.0) old.1, old.2);
        begun = grow (src, 0) h.begun;
        goal = ground (arith, h.goal);
      }

  -- A vertex at the end of a trail no longer than a depth that is done was discovered.
  pub near :
      (depth : ℕ)
      → ((v : Bytes) (e : ℕ)
          → Member (v, e) arrivals
          → e < depth
          → Member (v, e) done × (over max_depth e ≡ false))
      → Inv edges src dst max_depth done arrivals s
      → (v : Bytes) (path : List Bytes) (n : ℕ) → Trail edges src path v
      → length path ≡ suc n
      → n ≤ depth
      → (e : ℕ) × Member (v, e) arrivals × (e ≤ n)
  near depth full h v path n (source) long le = (0, h.begun, omega arith)
  near depth full h v whole zero (extend {path = path} {u} trail edge) long le =
      absurd
        (omega (arith, length-append path (v ∷ []), long, Trail-nonempty edges src u path trail))
  near depth full h v whole (suc n) (extend {path = path} {u} trail edge) long le =
      let long' : length path ≡ suc n = omega (arith, length-append path (v ∷ []), long) in
      let before = near depth full h u path n trail long' (omega arith) in
      let ready = full u before.0 before.1 (omega (arith, before.2)) in
      let next = h.closed u v before.0 ready.0 ready.1 edge in
      (next.0, next.1, omega (arith, next.2, before.2))
