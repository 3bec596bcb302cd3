-- ===== src/Graph/ShortestPath/Round.antt =====
-- The loop over the neighbors of a vertex in the search of crates/graph/src/path.rs.
use dllb.Common.{
  ℕ, zero, suc, ◌+◌, ◌≤◌, ◌<◌, List, [], ◌∷◌, ◌++◌, Bytes, false, Option, ◌≡◌, refl, arith, length,
  length-append, Member, Member-append, inl, inr, beq, beq_iff, Bool-cases, leb, ap, sym, ◌∙◌,
  append_assoc,
}
use dllb.Common.Map.{insert}
use dllb.Graph.ShortestPath.{
  Search, is_visited, discover, over, Scan, running, arrived, arrive, visit_neighbors, reconstruct,
  found,
}
use dllb.Graph.ShortestPath.Trails.{Trail, Trail-nonempty, Answer, shortest}
use dllb.Graph.ShortestPath.Chains.{reconstruct-Chain}
use dllb.Graph.ShortestPath.Levels.{
  Levels, Levels-push, Levels-le, over_below, Within-over, unseen, unseen-visit,
}
use dllb.Graph.ShortestPath.Frontier.{Discovered, Discovered-new, Inv, Inv-discover, near}

-- `before` is what left the queue; `done` what was expanded of it.
pub record Round (edges : List (Bytes × Bytes)) (src dst : Bytes) (max_depth : Option ℕ)
    (done before arrivals : List (Bytes × ℕ)) (s : Search) (level : ℕ) : Type 0 where
  pub inv : Inv edges src dst max_depth done arrivals s
  pub split : arrivals ≡ before ++ s.queue
  pub deep : (v : Bytes) (e : ℕ) → Member (v, e) arrivals → e ≤ suc level
  pub levels : Levels level s.queue

module _ (edges : List (Bytes × Bytes)) (src dst : Bytes) (max_depth : Option ℕ)
    (done : List (Bytes × ℕ)) (node : Bytes) (depth : ℕ) where
  abbrev pub Scanning : List (Bytes × ℕ) → Search → Type 0
  Scanning arrivals s =
      Round edges src dst max_depth done (done ++ (node, depth) ∷ []) arrivals s depth

  -- Less deep vertices were expanded.
  full :
      (arrivals : List (Bytes × ℕ)) (s : Search)
      → over max_depth depth ≡ false
      → Scanning arrivals s
      → (v : Bytes) (e : ℕ) → Member (v, e) arrivals
      → e < depth
      → Member (v, e) done × (over max_depth e ≡ false)
  full arrivals s below h v e m less =
      let place = (Member-append (v, e) (done ++ (node, depth) ∷ []) s.queue).0 (rw h.split at m) in
      elim place [
        | inl old ↦ elim ((Member-append (v, e) done ((node, depth) ∷ [])).0 old) [
          | inl l ↦ (l, over_below max_depth depth e (omega arith) below)
          | inr r ↦ elim r [
            | inl same ↦ absurd (omega (arith, ap (λ (x : Bytes × ℕ). x.1) same))
            | inr no_more ↦ absurd no_more
          ]
        ]
        | inr waiting ↦ absurd (omega (arith, Levels-le depth e v s.queue h.levels waiting))
      ]

  Discovered-node :
      (arrivals : List (Bytes × ℕ)) (s : Search)
      → Scanning arrivals s
      → Discovered edges src s node depth
  Discovered-node arrivals s h = h.inv.discovered node depth (
      rw h.split (
        (Member-append (node, depth) (done ++ (node, depth) ∷ []) s.queue).1
          (inl ((Member-append (node, depth) done ((node, depth) ∷ [])).1 (inr (inl refl))))))

  -- what the loop has to give
  pub data Scanned (neighbors : List Bytes) (arrivals : List (Bytes × ℕ)) (s : Search)
      : Scan → Type 0 where
    ran :
        (arrivals' : List (Bytes × ℕ)) (s' : Search)
        → Scanning arrivals' s'
        → ((v : Bytes) (e : ℕ) → Member (v, e) arrivals → Member (v, e) arrivals')
        → ((v : Bytes) → Member v neighbors → (e : ℕ) × Member (v, e) arrivals' × (e ≤ suc depth))
        → unseen s'.visited edges + length s'.queue ≤ unseen s.visited edges + length s.queue
        → Scanned neighbors arrivals s (running s')
    came :
        (path : List Bytes)
        → Answer edges src dst max_depth (found path)
        → Scanned neighbors arrivals s (arrived path)

  minimal :
      (arrivals : List (Bytes × ℕ)) (s : Search) (n : ℕ) (other : List Bytes)
      → over max_depth depth ≡ false
      → Scanning arrivals s
      → Trail edges src other dst
      → length other ≡ n
      → suc (suc depth) ≤ n
  minimal arrivals s zero other below h t e =
      absurd (omega (arith, e, Trail-nonempty edges src dst other t))
  minimal arrivals s (suc n) other below h t e = elim (Bool-cases (leb n depth)) [
    | inr f ↦ ground (arith)
    | inl le ↦
        let met =
          near edges src dst max_depth done arrivals s depth (full arrivals s below h) h.inv dst
            other n t e (ground arith) in
        absurd (ground (arith, h.inv.goal, (h.inv.discovered dst met.0 met.1).seen))
  ]

  arrive_lem :
      (neighbors : List Bytes) (arrivals : List (Bytes × ℕ)) (s : Search)
      → over max_depth depth ≡ false
      → is_visited s.visited dst ≡ false
      → Member (node, dst) edges
      → Scanning arrivals s
      → Scanned neighbors arrivals s
          (arrive (reconstruct (length (dst ∷ s.visited)) (insert dst node s.parent) dst))
  arrive_lem neighbors arrivals s below new edge h =
      let d = Discovered-new edges src s dst node depth new edge (Discovered-node arrivals s h) in
      rw
        (reconstruct-Chain (insert dst node s.parent) dst d.path (length (dst ∷ s.visited)) d.chain
          (omega (arith, d.bounded, d.long)))
        (came d.path (
          shortest d.path (suc depth) d.trail d.long (Within-over max_depth depth below) (λ other t.
            omega (arith, d.long, minimal arrivals s (length other) other below h t refl))))

  widen :
      (nb : Bytes) (neighbors : List Bytes) (arrivals arrivals' : List (Bytes × ℕ)) (s s' : Search)
      (r : Scan)
      → ((v : Bytes) (e : ℕ) → Member (v, e) arrivals → Member (v, e) arrivals')
      → (e : ℕ) × Member (nb, e) arrivals' × (e ≤ suc depth)
      → unseen s'.visited edges + length s'.queue ≤ unseen s.visited edges + length s.queue
      → Scanned neighbors arrivals' s' r
      → Scanned (nb ∷ neighbors) arrivals s r
  widen nb neighbors arrivals arrivals' s s' r grow here less (came path a) = came path a
  widen nb neighbors arrivals arrivals' s s' r grow here less (ran last t h grows ends work) =
      ran last t h (λ v e m. grows v e (grow v e m))
        (λ v m. elim m [
          | inl same ↦ (here.0, grows v here.0 (rw same here.1), here.2)
          | inr later ↦ ends v later
        ])
        (omega arith)

  Scanning-discover :
      (nb : Bytes) (arrivals : List (Bytes × ℕ)) (s : Search)
      → is_visited s.visited nb ≡ false
      → beq nb dst ≡ false
      → Member (node, nb) edges
      → Scanning arrivals s
      → Scanning (arrivals ++ (nb, suc depth) ∷ []) (discover nb node depth s)
  Scanning-discover nb arrivals s new other edge h = record {
    inv =
        Inv-discover edges src dst max_depth done arrivals s nb node depth new other edge
          (Discovered-node arrivals s h) h.inv;
    split =
        ap (λ xs. xs ++ (nb, suc depth) ∷ []) h.split
        ∙ append_assoc (done ++ (node, depth) ∷ []) s.queue ((nb, suc depth) ∷ []);
    deep = λ v e m. elim ((Member-append (v, e) arrivals ((nb, suc depth) ∷ [])).0 m) [
      | inl old ↦ h.deep v e old
      | inr last ↦ elim last [
        | inl same ↦ omega (arith, ap (λ (x : Bytes × ℕ). x.1) same)
        | inr no_more ↦ absurd no_more
      ]
    ];
    levels = Levels-push depth nb s.queue h.levels;
  }

  pub visit_neighbors-Scanned :
      (neighbors : List Bytes) (arrivals : List (Bytes × ℕ)) (s : Search)
      → over max_depth depth ≡ false
      → ((v : Bytes) → Member v neighbors → Member (node, v) edges)
      → Scanning arrivals s
      → Scanned neighbors arrivals s (visit_neighbors dst node depth neighbors s)
  unfolding visit_neighbors
  visit_neighbors-Scanned [] arrivals s below edge h =
      ran arrivals s h (λ v e m. m) (λ v m. absurd m) (omega arith)
  visit_neighbors-Scanned (nb ∷ neighbors) arrivals s below edge h =
      elim (Bool-cases (is_visited s.visited nb)) [
        | inl seen ↦
            let at = h.inv.listed nb seen in
            rw seen (
              widen nb neighbors arrivals arrivals s s (visit_neighbors dst node depth neighbors s)
                (λ v e m. m) (at.0, at.1, h.deep nb at.0 at.1) (omega arith)
                (visit_neighbors-Scanned neighbors arrivals s below (λ v m. edge v (inr m)) h))
        | inr new ↦ elim (Bool-cases (beq nb dst)) [
          | inl t ↦
              let same : nb ≡ dst = (beq_iff nb dst).0 t in
              rw (new, t)
                (rw same (
                  arrive_lem (dst ∷ neighbors) arrivals s below (rw same at new)
                    (edge dst (inl (sym same))) h))
          | inr f ↦
              rw (new, f)
                (widen nb neighbors arrivals (arrivals ++ (nb, suc depth) ∷ []) s
                  (discover nb node depth s)
                  (visit_neighbors dst node depth neighbors (discover nb node depth s))
                  (λ v e m. (Member-append (v, e) arrivals ((nb, suc depth) ∷ [])).1 (inl m))
                  (
                    suc depth,
                    (Member-append (nb, suc depth) arrivals ((nb, suc depth) ∷ [])).1
                        (inr (inl refl)),
                    omega arith,
                  )
                  (omega (
                    arith,
                    unseen-visit nb node s.visited edges new (edge nb (inl refl)),
                    length-append s.queue ((nb, suc depth) ∷ []),
                  ))
                  (visit_neighbors-Scanned neighbors (arrivals ++ (nb, suc depth) ∷ [])
                    (discover nb node depth s) below (λ v m. edge v (inr m))
                    (Scanning-discover nb arrivals s new f (edge nb (inl refl)) h)))
        ]
      ]
