-- ===== src/Query/Executor/Fresh.antt =====
-- The cache serves what was computed and is not forgotten (crates/query/src/executor.rs, cache.rs).
use dllb.Common.{
  ℕ, suc, ◌+◌, ◌<◌, ◌^◌, ◌∷◌, [], Bytes, false, none, some, ◌≡◌, refl, arith, length, ◌⊎◌, inl, inr,
  Bool-cases, Option, ◌∙◌, sym, Member, ap,
}
use dllb.Query.Ast.{OutcomeFormat}
use dllb.Query.Cache.{
  TableKey, table_key, table_beq, version_of, CacheKey, CacheKind, communities_kind,
  components_kind, pagerank_kind, centrality_kind, key_beq, CacheEntry, LruCache, InnerCache, bump,
  get, insert,
}
use dllb.Query.Cache.Keys.{key_beq_iff, version_of-bump_key}
use dllb.Query.Cache.Lru.{IsLru, find}
use dllb.Query.Cache.Insert.{Inserted, insert-Inserted}
use dllb.Query.Cache.Read.{get-Got}
use dllb.Query.Executor.{QueryResult, Shared}
use dllb.Query.Executor.Keys.{statement_of}
use dllb.Query.Executor.Answers.{
  Request, subject, is_about, Past, forget, remember, table_of, request_of, IsFresh,
}

subject-kind :
    (ns db table : Bytes) (kind : CacheKind) (outcome : OutcomeFormat)
    → let key : CacheKey = record {
      ns = ns;
      db = db;
      table = table;
      kind = kind;
      outcome = outcome;
    } in
      subject ns db (statement_of key) ≡ some (table_key ns db table)
unfolding subject statement_of
subject-kind ns db table (communities_kind _ _ _) outcome = refl
subject-kind ns db table components_kind outcome = refl
subject-kind ns db table (pagerank_kind _ _ _) outcome = refl
subject-kind ns db table (centrality_kind _ _) outcome = refl

pub subject-request_of :
    (key : CacheKey) → subject key.ns key.db (statement_of key) ≡ some (table_of key)
subject-request_of key = subject-kind key.ns key.db key.table key.kind key.outcome

Member-forget :
    (t : TableKey) (r : Request) (result : QueryResult) (past : Past)
    → is_about t (subject r.ns r.db r.query.statement) ≡ false
    → Member (r, result) past
    → Member (r, result) (forget t past)
unfolding forget
Member-forget t r result [] other m = absurd m
Member-forget t r result ((q, x) ∷ past) other (inl e) =
    let same : r ≡ q = ap (λ (z : Request × QueryResult). z.0) e in
    let stays : is_about t (subject q.ns q.db q.query.statement) ≡ false = rw same at other in
    rw stays (inl e)
Member-forget t r result ((q, x) ∷ past) other (inr m) =
    let rest = Member-forget t r result past other m in
    elim (Bool-cases (is_about t (subject q.ns q.db q.query.statement))) [
      | inl gone ↦ rw gone rest
      | inr stays ↦ rw stays (inr rest)
    ]

module _ (format_result : QueryResult → OutcomeFormat → Bytes) (lru : LruCache)
    (laws : IsLru lru) where
  abbrev pub Fresh : ℕ → Past → Shared lru → Type 0
  Fresh = IsFresh format_result lru laws

  pub Fresh-later :
      (n : ℕ) (past : Past) (shared : Shared lru) → Fresh n past shared → Fresh (suc n) past shared
  Fresh-later n past shared h = record {
    bounded = h.bounded;
    counts = λ t. omega (arith, h.counts t);
    older = h.older;
    right = h.right;
  }

  -- a lookup leaves what is found
  pub Fresh-get :
      (n : ℕ) (past : Past) (shared : Shared lru) (key : CacheKey) (v : ℕ)
      → Fresh n past shared
      → Fresh n past (record shared { cache = (get lru key v shared.cache).1 })
  Fresh-get n past shared key v h =
      let got = get-Got lru laws key v shared.cache h.bounded in
      record {
        bounded = got.bounded;
        counts = h.counts;
        older = λ k e f. h.older k e (sym (got.same k) ∙ f);
        right = λ k e f now. h.right k e (sym (got.same k) ∙ f) now;
      }

  -- a result that is not stored
  pub Fresh-remember :
      (n : ℕ) (past : Past) (shared : Shared lru) (about : Option TableKey) (r : Request)
      (result : QueryResult)
      → Fresh n past shared
      → Fresh n (remember about r result past) shared
  Fresh-remember n past shared none r result h = h
  Fresh-remember n past shared (some t) r result h = record {
    bounded = h.bounded;
    counts = h.counts;
    older = h.older;
    right = λ k e f now. let was = h.right k e f now in (was.0, inr was.1, was.2);
  }

  -- a relate, with the bump after it
  pub Fresh-bump :
      (n : ℕ) (past : Past) (shared : Shared lru) (ns db table : Bytes)
      → suc n < 2 ^ 64
      → Fresh n past shared
      → Fresh
          (suc n)
          (forget (table_key ns db table) past)
          (record shared { versions = bump ns db table shared.versions })
  unfolding bump
  Fresh-bump n past shared ns db table small h =
      let key = table_key ns db table in
      record {
        bounded = h.bounded;
        counts = λ t. ground (arith, version_of-bump_key key t shared.versions, h.counts t);
        older = λ k e f. ground (
          arith,
          version_of-bump_key key (table_of k) shared.versions,
          h.older k e f,
          h.counts (table_of k),
        );
        right = λ k e f now. elim (Bool-cases (table_beq key (table_of k))) [
          | inl t ↦ absurd (
              ground (
                arith,
                version_of-bump_key key (table_of k) shared.versions,
                h.older k e f,
                h.counts (table_of k),
              ))
          | inr other ↦
              let was =
                h.right k e f
                  (ground (arith, version_of-bump_key key (table_of k) shared.versions)) in
              let apart : is_about key (subject k.ns k.db (statement_of k)) ≡ false =
                ap (is_about key) (subject-request_of k) ∙ other in
              (was.0, Member-forget key (request_of k) was.0 past apart was.1, was.2)
        ];
      }

  -- what is found after an insertion
  place :
      (key k : CacheKey) (entry e : CacheEntry) (before after : InnerCache lru)
      → Inserted lru laws key entry before after
      → find k (laws.entries after.cache) ≡ some e
      → ((key ≡ k) × (entry ≡ e)) ⊎ (find k (laws.entries before.cache) ≡ some e)
  place key k entry e before after put f = elim (Bool-cases (key_beq key k)) [
    | inl t ↦
        let same = (key_beq_iff key k).0 t in
        let here : find k (laws.entries after.cache) ≡ some entry = rw same at put.hit in
        let both : some entry ≡ some e = sym here ∙ f in inl (same, cc)
    | inr other ↦ elim (put.others k other) [ inl kept ↦ inr (sym kept ∙ f) | inr gone ↦ absurd cc ]
  ]

  -- a result is stored
  pub Fresh-insert :
      (n : ℕ) (past : Past) (shared : Shared lru) (key : CacheKey) (result : QueryResult)
      → length (format_result result key.outcome) + 128 < 2 ^ 63
      → Fresh n past shared
      → (cache : InnerCache lru) × (insert lru key
            (format_result result key.outcome)
            (version_of (table_of key) shared.versions)
            shared.cache
          ≡ some cache)
        × Fresh n ((request_of key, result) ∷ past) (record shared { cache = cache })
  Fresh-insert n past shared key result short h =
      let payload = format_result result key.outcome in
      let version = version_of (table_of key) shared.versions in
      let put = insert-Inserted lru laws key payload version shared.cache h.bounded short in
      let entry : CacheEntry = record {
        payload = payload;
        version = version;
        bytes = length payload + 128;
      } in
      (
        put.0,
        put.1,
        record {
          bounded = put.2.bounded;
          counts = h.counts;
          older = λ k e f. elim (place key k entry e shared.cache put.0 put.2 f) [
            | inl (a, b) ↦ rw (sym a) (rw (sym b) (omega arith))
            | inr old ↦ h.older k e old
          ];
          right = λ k e f now. elim (place key k entry e shared.cache put.0 put.2 f) [
            | inl (a, b) ↦ rw (sym a) (rw (sym b) (result, inl refl, refl))
            | inr old ↦ let was = h.right k e old now in (was.0, inr was.1, was.2)
          ];
        },
      )
