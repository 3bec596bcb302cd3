-- ===== src/Query/Executor/Correct.antt =====
-- The answers with the cache are computed, or were computed and are not forgotten
-- (crates/query/src/executor.rs).
use dllb.Common.{
  ℕ, suc, ◌+◌, ◌<◌, ◌^◌, List, [], ◌∷◌, Bytes, true, Option, none, some, ◌≡◌, refl, arith, length,
  inl, inr, Bool-cases, Option-cases, leb, ◌==◌, ap, ◌∙◌, sym, if◌then◌else◌, Member,
}
use dllb.Core.{Result, ok}
use dllb.Query.Ast.{OutcomeFormat, Statement, Query}
use dllb.Query.Cache.{version_of, CacheKey, LruCache, InnerCache, with_bounds, current, get}
use dllb.Query.Cache.Lru.{IsLru, find}
use dllb.Query.Cache.Bounds.{with_bounds-IsBounded}
use dllb.Query.Cache.Read.{get-Got, fresh}
use dllb.Query.Executor.{
  QueryResult, cached_response, key_of, is_stored, Shared, try_cache_hit, after_execute,
  after_lookup, run, start_shared,
}
use dllb.Query.Executor.Answers.{
  table_of, Request, Past, request_of, Answered, recalled, Served, nothing, then_answer, cached,
}
use dllb.Query.Executor.Fresh.{Fresh, Fresh-later, Fresh-get}
use dllb.Query.Executor.Run.{request_of-key, Ran, executed-Ran}

module _ (lru : LruCache) (ns db : Bytes) (stmt : Statement) (outcome : OutcomeFormat)
    (shared : Shared lru) where
  try_cache_hit-no_key :
      key_of ns db stmt outcome ≡ none
      → try_cache_hit lru ns db stmt outcome shared ≡ (none, shared)
  unfolding try_cache_hit
  try_cache_hit-no_key e = rw (e, try_cache_hit) refl

  try_cache_hit-key :
      (key : CacheKey) (o : Option Bytes)
      → key_of ns db stmt outcome ≡ some key
      → (get lru key (version_of (table_of key) shared.versions) shared.cache).0 ≡ o
      → try_cache_hit lru ns db stmt outcome shared ≡ (
        o,
        record shared {
          cache = (get lru key (version_of (table_of key) shared.versions) shared.cache).1;
        },
      )
  unfolding try_cache_hit current
  try_cache_hit-key key o built e = rw (built, try_cache_hit) (rw e refl)

module _ {S : Type 0} (format_result : QueryResult → OutcomeFormat → Bytes)
    (execute : Bytes → Bytes → Statement → S → Result QueryResult × S)
    (short : (stmt : Statement) (result : QueryResult) (outcome : OutcomeFormat)
      → is_stored stmt result ≡ true
      → length (format_result result outcome) + 128 < 2 ^ 63)
    (lru : LruCache) (laws : IsLru lru) where
  -- a hit
  hit_lem :
      (n : ℕ) (key : CacheKey) (past : Past) (shared : Shared lru) (payload : Bytes)
      → fresh
          (version_of (table_of key) shared.versions)
          (find key (laws.entries shared.cache.cache))
        ≡ some payload
      → Fresh format_result lru laws n past shared
      → (result : QueryResult) × Member (request_of key, result) past
        × (format_result result key.outcome ≡ payload)
  hit_lem n key past shared payload e h =
      elim (Option-cases (find key (laws.entries shared.cache.cache))) [
        | inl f ↦ absurd (ground arith)
        | inr (entry, f) ↦
            elim (Bool-cases (entry.version == version_of (table_of key) shared.versions)) [
              | inr g ↦ absurd (ground arith)
              | inl g ↦
                  let now = h.right key entry f (ground arith) in
                  (now.0, now.1, now.2 ∙ ground arith)
            ]
      ]

  module _ (ns db : Bytes) (q : Query) (s : S) (shared : Shared lru) where
    run-no_key :
        key_of ns db q.statement q.outcome ≡ none
        → run lru format_result execute ns db q s shared
          ≡ after_execute lru format_result execute ns db q (execute ns db q.statement s) shared
    unfolding run
    run-no_key e =
        ap (after_lookup lru format_result execute ns db q s)
          (try_cache_hit-no_key lru ns db q.statement q.outcome shared e)

    module _ (key : CacheKey) (built : key_of ns db q.statement q.outcome ≡ some key) where
      abbrev looked_up : Option Bytes × InnerCache lru
      looked_up = get lru key (version_of (table_of key) shared.versions) shared.cache

      run-miss :
          looked_up.0 ≡ none
          → run lru format_result execute ns db q s shared
            ≡ after_execute lru format_result execute ns db q
                (execute ns db q.statement s)
                (record shared { cache = looked_up.1 })
      unfolding run
      run-miss e =
          ap (after_lookup lru format_result execute ns db q s)
            (try_cache_hit-key lru ns db q.statement q.outcome shared key none built e)

      run-hit :
          (p : Bytes)
          → looked_up.0 ≡ some p
          → run lru format_result execute ns db q s shared
            ≡ some (ok (cached_response p), s, record shared { cache = looked_up.1 })
      unfolding run
      run-hit p e =
          ap (after_lookup lru format_result execute ns db q s)
            (try_cache_hit-key lru ns db q.statement q.outcome shared key (some p) built e)

  -- a hit answers what is in the past of the request
  recalled_lem :
      (r : Request) (key : CacheKey) (s : S) (past : Past) (payload : Bytes) (result : QueryResult)
      → request_of key ≡ r
      → Member (request_of key, result) past
      → format_result result key.outcome ≡ payload
      → Answered format_result execute r s past (ok (cached_response payload)) s past
  recalled_lem r key s past payload result same m e =
      let same_outcome : key.outcome ≡ r.query.outcome =
        ap (λ (q : Request). q.query.outcome) same in
      recalled result (rw same at m) (rw same_outcome at e)

  run-Ran :
      (n : ℕ) (r : Request) (s : S) (past : Past) (shared : Shared lru)
      → suc n < 2 ^ 64
      → Fresh format_result lru laws n past shared
      → Ran format_result execute short lru laws n r s past
          (run lru format_result execute r.ns r.db r.query s shared)
  run-Ran n r s past shared small h =
      let out = execute r.ns r.db r.query.statement s in
      elim (Option-cases (key_of r.ns r.db r.query.statement r.query.outcome)) [
        | inl no_key ↦ rw (run-no_key r.ns r.db r.query s shared no_key) (
            executed-Ran format_result execute short lru laws n r s past shared out.0 out.1 small
              refl h)
        | inr (key, e) ↦
            let version = version_of (table_of key) shared.versions in
            let got = get-Got lru laws key version shared.cache h.bounded in
            let after : Shared lru = record shared {
              cache = (get lru key version shared.cache).1;
            } in
            let still = Fresh-get format_result lru laws n past shared key version h in
            elim (Option-cases (get lru key version shared.cache).0) [
              | inl miss ↦ rw (run-miss r.ns r.db r.query s shared key e miss) (
                  executed-Ran format_result execute short lru laws n r s past after out.0 out.1
                    small refl still)
              | inr (payload, hit) ↦
                  let (result, m, same) =
                    hit_lem n key past shared payload (sym got.answer ∙ hit) h in
                  record {
                    answer = ok (cached_response payload);
                    state = s;
                    shared = after;
                    later = past;
                    returns = run-hit r.ns r.db r.query s shared key e payload hit;
                    answered =
                        recalled_lem r key s past payload result (request_of-key r key e) m same;
                    still = Fresh-later format_result lru laws n past after still;
                  }
            ]
      ]

  cached-Served :
      (requests : List Request) (n : ℕ) (s : S) (past : Past) (shared : Shared lru)
      → n + length requests < 2 ^ 64
      → Fresh format_result lru laws n past shared
      → (answers : List (Result QueryResult)) × (cached format_result execute lru requests s shared
          ≡ some answers)
        × Served format_result execute requests s past answers
  cached-Served [] n s past shared small h = ([], refl, nothing)
  cached-Served (r ∷ requests) n s past shared small h =
      let ran = run-Ran n r s past shared (omega arith) h in
      let rest =
        cached-Served requests (suc n) ran.state ran.later ran.shared (omega arith) ran.still in
      (
        ran.answer ∷ rest.0,
        rw (ran.returns, cached) (rw rest.1 refl),
        then_answer ran.answered rest.2,
      )

  -- For any handlers and formats, where every result that is stored has a text of less than 2 ^
  -- 63 - 128 bytes, and over an `lru` that behaves as documented: executors that take turns, a
  -- whole query at a time, and share a cache that starts empty, with a byte limit below 2 ^ 63,
  -- answer fewer than 2 ^ 64 queries of any namespaces and databases, no eviction running out
  -- of fuel. Each answer is what the handler returns for it on the storage as it is, which then
  -- goes on as the handler leaves it; or the storage is left alone and the answer is the text
  -- of a result that the handler returned to the same request before, a graph statement about
  -- an edge table that no relate which returned `Done` wrote since then.
  pub cached_answers :
      (capacity max_bytes : ℕ) (requests : List Request) (s : S)
      → max_bytes < 2 ^ 63
      → length requests < 2 ^ 64
      → (answers : List (Result QueryResult)) × (cached format_result execute lru requests s
            (start_shared lru capacity max_bytes)
          ≡ some answers)
        × Served format_result execute requests s [] answers
  unfolding with_bounds
  cached_answers capacity max_bytes requests s small few =
      let size = if leb capacity 1 then 1 else capacity in
      cached-Served requests 0 s [] (start_shared lru capacity max_bytes) (omega arith) (record {
        bounded = with_bounds-IsBounded lru laws capacity max_bytes small;
        counts = λ t. omega arith;
        older = λ k e f. absurd (ground (arith, laws.entries-new size));
        right = λ k e f. absurd (ground (arith, laws.entries-new size));
      })
