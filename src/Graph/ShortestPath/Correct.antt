-- ===== src/Graph/ShortestPath/Correct.antt =====
-- The search of crates/graph/src/path.rs returns a shortest path, or finds that there is none.
use dllb.Common.{
  ℕ, zero, suc, ◌+◌, ◌≤◌, ◌<◌, List, [], ◌∷◌, ◌++◌, Bytes, false, Option, ◌≡◌, refl, arith, length,
  Member, Member-append, inl, inr, beq, beq_iff, beq_refl, Bool-cases, List-cases, Option-cases, ap,
  sym, ◌∙◌, append_assoc, append-nil,
}
use dllb.Common.Map.{lookup}
use dllb.Graph.ShortestPath.{
  adjacency, Search, start, over, Scan, running, arrived, stuck, out_of_fuel, visit_neighbors,
  expand, search_loop, shortest_path, found, not_found,
}
use dllb.Graph.ShortestPath.Trails.{
  source, Trail-nonempty, Answer, shortest, unreachable, Member-adjacency,
}
use dllb.Graph.ShortestPath.Chains.{root}
use dllb.Graph.ShortestPath.Levels.{Levels-pop, over-Within, Within-zero, unseen, unseen-length}
use dllb.Graph.ShortestPath.Frontier.{near}
use dllb.Graph.ShortestPath.Round.{Round, Scanned, ran, came, visit_neighbors-Scanned}

module _ (edges : List (Bytes × Bytes)) (src dst : Bytes) (max_depth : Option ℕ) where
  -- the outer loop, between its rounds
  abbrev Waiting : List (Bytes × ℕ) → List (Bytes × ℕ) → Search → ℕ → Type 0
  Waiting done arrivals s level = Round edges src dst max_depth done done arrivals s level

  nothing_left :
      (done arrivals : List (Bytes × ℕ)) (s : Search) (level : ℕ)
      → s.queue ≡ []
      → Waiting done arrivals s level
      → Answer edges src dst max_depth not_found
  nothing_left done arrivals s level empty h = unreachable (λ path n t long within.
      let all : (v : Bytes) (e : ℕ) → Member (v, e) arrivals → Member (v, e) done =
        λ v e m. rw (h.split ∙ (ap (λ q. done ++ q) empty ∙ append-nil done)) at m in
      let met =
        near edges src dst max_depth done arrivals s n
          (λ v e m less. (all v e m, over-Within max_depth n e within less)) h.inv dst path n t long
          (omega arith) in
      ground (arith, h.inv.goal, (h.inv.discovered dst met.0 met.1).seen))

  -- the vertex at the head of the queue leaves it
  popped :
      (node : Bytes) (depth level : ℕ) (queue done arrivals : List (Bytes × ℕ)) (s : Search)
      → s.queue ≡ (node, depth) ∷ queue
      → Waiting done arrivals s level
      → Round edges src dst max_depth done
          (done ++ (node, depth) ∷ [])
          arrivals
          (record s { queue = queue })
          depth
  popped node depth level queue done arrivals s e h =
      let here = Levels-pop level depth node queue (rw e at h.levels) in
      record {
        inv = record {
          discovered = λ v d m.
              let old = h.inv.discovered v d m in
              record {
                seen = old.seen;
                bounded = old.bounded;
                path = old.path;
                chain = old.chain;
                trail = old.trail;
                long = old.long;
                all = old.all;
              };
          listed = h.inv.listed;
          closed = h.inv.closed;
          begun = h.inv.begun;
          goal = h.inv.goal;
        };
        split =
            h.split ∙ (ap (λ q. done ++ q) e ∙ sym (append_assoc done ((node, depth) ∷ []) queue));
        deep = λ v d m. omega (arith, h.deep v d m, here.0);
        levels = here.1;
      }

  -- its neighbors have been looked at
  expanded :
      (node : Bytes) (depth : ℕ) (done arrivals : List (Bytes × ℕ)) (s : Search)
      → ((v : Bytes)
          → over max_depth depth ≡ false
          → Member (node, v) edges
          → (e : ℕ) × Member (v, e) arrivals × (e ≤ suc depth))
      → Round edges src dst max_depth done (done ++ (node, depth) ∷ []) arrivals s depth
      → Waiting (done ++ (node, depth) ∷ []) arrivals s depth
  expanded node depth done arrivals s ends h = record {
    inv = record {
      discovered = h.inv.discovered;
      listed = h.inv.listed;
      closed = λ u v d m below edge. elim ((Member-append (u, d) done ((node, depth) ∷ [])).0 m) [
        | inl old ↦ h.inv.closed u v d old below edge
        | inr last ↦ elim last [
          | inl same ↦
              let at_node : u ≡ node = ap (λ (x : Bytes × ℕ). x.0) same in
              let at_depth : d ≡ depth = ap (λ (x : Bytes × ℕ). x.1) same in
              let end = ends v (rw at_depth at below) (rw at_node at edge) in
              (end.0, end.1, omega (arith, end.2))
          | inr no_more ↦ absurd no_more
        ]
      ];
      begun = h.inv.begun;
      goal = h.inv.goal;
    };
    split = h.split;
    deep = h.deep;
    levels = h.levels;
  }

  data Expanded (done : List (Bytes × ℕ)) (s : Search) : Scan → Type 0 where
    on :
        (arrivals' : List (Bytes × ℕ)) (s' : Search) (level : ℕ)
        → Waiting done arrivals' s' level
        → unseen s'.visited edges + length s'.queue ≤ unseen s.visited edges + length s.queue
        → Expanded done s (running s')
    over_there :
        (path : List Bytes)
        → Answer edges src dst max_depth (found path)
        → Expanded done s (arrived path)

  Expanded-neighbors :
      (node : Bytes) (depth : ℕ) (done arrivals : List (Bytes × ℕ)) (nbs : List Bytes) (s : Search)
      (r : Scan)
      → ((v : Bytes) → Member (node, v) edges → Member v nbs)
      → Scanned edges src dst max_depth done node depth nbs arrivals s r
      → Expanded (done ++ (node, depth) ∷ []) s r
  Expanded-neighbors node depth done arrivals nbs s r have (came path a) = over_there path a
  Expanded-neighbors node depth done arrivals nbs s r have (ran arrivals' s' h grow ends work) =
      on arrivals' s' depth
        (expanded node depth done arrivals' s' (λ v below edge. ends v (have v edge)) h) work

  expand-Expanded :
      (node : Bytes) (depth : ℕ) (done arrivals : List (Bytes × ℕ)) (s : Search)
      → Round edges src dst max_depth done (done ++ (node, depth) ∷ []) arrivals s depth
      → Expanded
          (done ++ (node, depth) ∷ [])
          s
          (expand (adjacency edges) dst max_depth node depth s)
  unfolding expand
  expand-Expanded node depth done arrivals s h = elim (Bool-cases (over max_depth depth)) [
    | inl t ↦ rw t (
        on arrivals s depth (expanded node depth done arrivals s (λ v f. absurd (ground arith)) h)
          (omega arith))
    | inr f ↦ rw f (elim (Option-cases (lookup node (adjacency edges))) [
      | inl e ↦ rw e (
          on arrivals s depth
            (expanded node depth done arrivals s
              (λ v k edge. absurd (rw e at ((Member-adjacency edges node v).1 edge))) h)
            (omega arith))
      | inr (nbs, e) ↦ rw e (
          Expanded-neighbors node depth done arrivals nbs s (visit_neighbors dst node depth nbs s)
            (λ v edge. rw e at ((Member-adjacency edges node v).1 edge))
            (visit_neighbors-Scanned edges src dst max_depth done node depth nbs arrivals s f
              (λ v m. (Member-adjacency edges node v).0 (rw e m)) h))
    ])
  ]

  -- a round of the loop, with the rounds after it
  round_lem :
      (done : List (Bytes × ℕ)) (s : Search) (fuel : ℕ) (r : Scan)
      → unseen s.visited edges + length s.queue < fuel
      → ((arrivals : List (Bytes × ℕ)) (s' : Search) (level : ℕ)
          → Waiting done arrivals s' level
          → unseen s'.visited edges + length s'.queue < fuel
          → Answer edges src dst max_depth (search_loop (adjacency edges) dst max_depth fuel s'))
      → Expanded done s r
      → Answer edges src dst max_depth (elim r [
        | running s' ↦ search_loop (adjacency edges) dst max_depth fuel s'
        | arrived path ↦ found path
        | stuck ↦ out_of_fuel
      ])
  round_lem done s fuel r h rest (over_there path a) = a
  round_lem done s fuel r h rest (on arrivals' s' level w le) =
      rest arrivals' s' level w (omega (arith, h))

  search_loop-Answer :
      (fuel : ℕ) (done arrivals : List (Bytes × ℕ)) (s : Search) (level : ℕ)
      → Waiting done arrivals s level
      → unseen s.visited edges + length s.queue < fuel
      → Answer edges src dst max_depth (search_loop (adjacency edges) dst max_depth fuel s)
  unfolding search_loop
  search_loop-Answer zero done arrivals s level h less = absurd (omega arith)
  search_loop-Answer (suc fuel) done arrivals s level h less = elim (List-cases s.queue) [
    | inl e ↦ rw (e, search_loop) (nothing_left done arrivals s level e h)
    | inr ((node, depth), queue, e) ↦
        rw (e, search_loop)
          (round_lem (done ++ (node, depth) ∷ []) (record s { queue = queue }) fuel
            (expand (adjacency edges) dst max_depth node depth (record s { queue = queue }))
            (omega (arith, ap (λ q. length q) e))
            (λ arrivals' s' level' w less'.
              search_loop-Answer fuel (done ++ (node, depth) ∷ []) arrivals' s' level' w less')
            (expand-Expanded node depth done arrivals (record s { queue = queue })
              (popped node depth level queue done arrivals s e h)))
  ]

  begin : beq src dst ≡ false → Waiting [] ((src, 0) ∷ []) (start src) 0
  begin other = record {
    inv = record {
      discovered = λ v d m. elim m [
        | inl same ↦ rw (ap (λ (x : Bytes × ℕ). x.0) same) (
            rw (ap (λ (x : Bytes × ℕ). x.1) same) (record {
              seen = ground (arith, beq_refl src);
              bounded = omega arith;
              path = src ∷ [];
              chain = root refl;
              trail = source;
              long = refl;
              all = (ground (arith, beq_refl src), tt);
            }))
        | inr no_more ↦ absurd no_more
      ];
      listed = λ v t. (0, inl (rw ((beq_iff src v).0 (ground arith)) refl));
      closed = λ u v d m. absurd m;
      begun = inl refl;
      goal = ground arith;
    };
    split = refl;
    deep = λ v e m. elim m [
      | inl same ↦ omega (arith, ap (λ (x : Bytes × ℕ). x.1) same)
      | inr no_more ↦ absurd no_more
    ];
    levels = inl (refl, tt);
  }

  -- For any list of edges, two vertices and depth budget, with the fuel that it is given the
  -- search ends, and what it returns is a path along the edges from the one vertex to the
  -- other, within the budget, and no longer than any other such path along the edges; or it
  -- returns none, and no path from the one to the other is within the budget.
  pub shortest_path_correct : Answer edges src dst max_depth (shortest_path edges src dst max_depth)
  unfolding shortest_path
  shortest_path_correct = elim (Bool-cases (beq src dst)) [
    | inr f ↦ rw f (
        search_loop-Answer (suc (suc (length edges))) [] ((src, 0) ∷ []) (start src) 0 (begin f)
          (omega (arith, unseen-length (src ∷ []) edges)))
    | inl t ↦
        let same : src ≡ dst = (beq_iff src dst).0 t in
        rw t (
          shortest (src ∷ []) 0 (rw same source) refl (Within-zero max_depth)
            (λ other p. omega (arith, Trail-nonempty edges src dst other p)))
  ]
