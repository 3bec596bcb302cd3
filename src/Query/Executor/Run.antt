-- ===== src/Query/Executor/Run.antt =====
-- A run of a query with the cache (crates/query/src/executor.rs).
use dllb.Common.{
  ℕ, suc, ◌+◌, ◌<◌, ◌^◌, Bytes, true, false, Option, none, some, ◌≡◌, refl, inl, inr, Bool-cases,
  Option-cases, ap, ◌∙◌, sym, length,
}
use dllb.Core.{Result, ok, err}
use dllb.Query.Ast.{OutcomeFormat, Statement, relate}
use dllb.Query.Cache.{table_key, version_of, CacheKey, LruCache, InnerCache, bump, insert, current}
use dllb.Query.Cache.Lru.{IsLru}
use dllb.Query.Executor.{
  QueryResult, done, key_of, is_stored, Shared, store_result, post_execute, after_execute,
}
use dllb.Query.Executor.Keys.{statement_of, key_of-Built}
use dllb.Query.Executor.Answers.{
  Request, subject, written, Past, remember, note, Answered, computed, table_of, request_of,
}
use dllb.Query.Executor.Fresh.{
  Fresh, Fresh-later, Fresh-remember, Fresh-bump, Fresh-insert, subject-request_of,
}

module _ (lru : LruCache) (format_result : QueryResult → OutcomeFormat → Bytes) (ns db : Bytes)
    (stmt : Statement) (r : QueryResult) (outcome : OutcomeFormat) (shared : Shared lru) where
  after_execute-post :
      {S : Type 0} (execute : Bytes → Bytes → Statement → S → Result QueryResult × S) (s : S)
      (shared' : Shared lru)
      → post_execute lru format_result ns db stmt r outcome shared ≡ some shared'
      → after_execute lru format_result execute ns db
          (record { statement = stmt; outcome = outcome })
          (ok r, s)
          shared
        ≡ some (ok r, s, shared')
  unfolding after_execute
  after_execute-post execute s shared' e = rw (e, after_execute) refl

  store_result-no_key :
      key_of ns db stmt outcome ≡ none
      → store_result lru format_result ns db stmt r outcome shared ≡ some shared
  unfolding store_result
  store_result-no_key e = rw (e, store_result) refl

  store_result-skip :
      (key : CacheKey)
      → key_of ns db stmt outcome ≡ some key
      → is_stored stmt r ≡ false
      → store_result lru format_result ns db stmt r outcome shared ≡ some shared
  unfolding store_result
  store_result-skip key e f = rw (e, f, store_result) refl

  store_result-put :
      (key : CacheKey) (cache : InnerCache lru)
      → key_of ns db stmt outcome ≡ some key
      → is_stored stmt r ≡ true
      → insert lru key
          (format_result r outcome)
          (version_of (table_of key) shared.versions)
          shared.cache
        ≡ some cache
      → store_result lru format_result ns db stmt r outcome shared
        ≡ some (record shared { cache = cache })
  unfolding store_result current
  store_result-put key cache e t put = rw (e, t, put, store_result) refl

same_request :
    (ns db : Bytes) (stmt : Statement) (outcome : OutcomeFormat) (r : Request)
    → ns ≡ r.ns
    → db ≡ r.db
    → stmt ≡ r.query.statement
    → outcome ≡ r.query.outcome
    → record { ns = ns; db = db; query = record { statement = stmt; outcome = outcome } } ≡ r
same_request ns db stmt outcome r a b c d = rw (a, b, c, d) refl

-- a key was built of one request only
pub request_of-key :
    (r : Request) (key : CacheKey)
    → key_of r.ns r.db r.query.statement r.query.outcome ≡ some key
    → request_of key ≡ r
request_of-key r key e =
    let b = key_of-Built r.ns r.db r.query.statement r.query.outcome key e in
    same_request key.ns key.db (statement_of key) key.outcome r b.same_ns b.same_db b.statement
      b.same_outcome

-- what is done after a statement, and what of it is in the past
data After (lru : LruCache) (format_result : QueryResult → OutcomeFormat → Bytes) (r : Request)
    (result : QueryResult) (shared : Shared lru) : Type 0 where
  wrote :
      (table : Bytes)
      → post_execute lru format_result r.ns r.db r.query.statement result r.query.outcome shared
        ≡ some (record shared { versions = bump r.ns r.db table shared.versions })
      → written r.ns r.db r.query.statement result ≡ some (table_key r.ns r.db table)
      → After lru format_result r result shared
  no_write :
      post_execute lru format_result r.ns r.db r.query.statement result r.query.outcome shared
        ≡ store_result lru format_result r.ns r.db r.query.statement result r.query.outcome shared
      → written r.ns r.db r.query.statement result ≡ none
      → After lru format_result r result shared

after :
    (lru : LruCache) (format_result : QueryResult → OutcomeFormat → Bytes) (ns db : Bytes)
    (stmt : Statement) (outcome : OutcomeFormat) (result : QueryResult) (shared : Shared lru)
    → After lru format_result
        (record { ns = ns; db = db; query = record { statement = stmt; outcome = outcome } })
        result
        shared
unfolding post_execute written
after lru format_result ns db (relate src table dst fields) outcome done shared =
    wrote table refl refl
after lru format_result ns db (relate src table dst fields) outcome _ shared = no_write refl refl
after lru format_result ns db _ outcome result shared = no_write refl refl

module _ {S : Type 0} (format_result : QueryResult → OutcomeFormat → Bytes)
    (execute : Bytes → Bytes → Statement → S → Result QueryResult × S)
    (short : (stmt : Statement) (result : QueryResult) (outcome : OutcomeFormat)
      → is_stored stmt result ≡ true
      → length (format_result result outcome) + 128 < 2 ^ 63)
    (lru : LruCache) (laws : IsLru lru) where
  -- what a run is to do
  pub record Ran (n : ℕ) (r : Request) (s : S) (past : Past)
      (out : Option (Result QueryResult × S × Shared lru)) : Type 0 where
    pub answer : Result QueryResult
    pub state : S
    pub shared : Shared lru
    pub later : Past
    pub returns : out ≡ some (answer, state, shared)
    pub answered : Answered format_result execute r s past answer state later
    pub still : Fresh format_result lru laws (suc n) later shared

  -- a result is stored, or not, and is in the past
  record Kept (n : ℕ) (r : Request) (result : QueryResult) (past : Past) (shared : Shared lru)
      : Type 0 where
    stored : Shared lru
    stores :
        store_result lru format_result r.ns r.db r.query.statement result r.query.outcome shared
        ≡ some stored
    fresh :
        Fresh format_result lru laws n
          (remember (subject r.ns r.db r.query.statement) r result past)
          stored

  insert-outcome :
      (key : CacheKey) (result : QueryResult) (o o' : OutcomeFormat) (version : ℕ)
      (cache after : InnerCache lru)
      → o ≡ o'
      → insert lru key (format_result result o) version cache ≡ some after
      → insert lru key (format_result result o') version cache ≡ some after
  insert-outcome key result o o' version cache after same put = rw same at put

  Kept-key :
      (n : ℕ) (r : Request) (result : QueryResult) (past : Past) (shared : Shared lru)
      (key : CacheKey)
      → request_of key ≡ r
      → key_of r.ns r.db r.query.statement r.query.outcome ≡ some key
      → is_stored r.query.statement result ≡ true
      → Fresh format_result lru laws n past shared
      → Kept n r result past shared
  Kept-key n r result past shared key same e t h =
      let key_short : length (format_result result key.outcome) + 128 < 2 ^ 63 =
        short r.query.statement result key.outcome t in
      let put = Fresh-insert format_result lru laws n past shared key result key_short h in
      let about : subject r.ns r.db r.query.statement ≡ some (table_of key) =
        rw (sym same) (subject-request_of key) in
      let same_outcome : key.outcome ≡ r.query.outcome =
        ap (λ (q : Request). q.query.outcome) same in
      record {
        stored = record shared { cache = put.0 };
        stores =
            store_result-put lru format_result r.ns r.db r.query.statement result r.query.outcome
              shared key put.0 e t
              (insert-outcome key result key.outcome r.query.outcome
                (version_of (table_of key) shared.versions) shared.cache put.0 same_outcome put.1);
        fresh = rw about (rw same at put.2);
      }

  Kept-any :
      (n : ℕ) (r : Request) (result : QueryResult) (past : Past) (shared : Shared lru)
      → Fresh format_result lru laws n past shared
      → Kept n r result past shared
  Kept-any n r result past shared h =
      let about = subject r.ns r.db r.query.statement in
      let more = Fresh-remember format_result lru laws n past shared about r result h in
      elim (Option-cases (key_of r.ns r.db r.query.statement r.query.outcome)) [
        | inl e ↦ record {
          stored = shared;
          stores =
              store_result-no_key lru format_result r.ns r.db r.query.statement result
                r.query.outcome shared e;
          fresh = more;
        }
        | inr (key, e) ↦ elim (Bool-cases (is_stored r.query.statement result)) [
          | inr f ↦ record {
            stored = shared;
            stores =
                store_result-skip lru format_result r.ns r.db r.query.statement result
                  r.query.outcome shared key e f;
            fresh = more;
          }
          | inl t ↦ Kept-key n r result past shared key (request_of-key r key e) e t h
        ]
      ]

  -- a statement that was executed
  pub executed-Ran :
      (n : ℕ) (r : Request) (s : S) (past : Past) (shared : Shared lru)
      (answer : Result QueryResult) (s' : S)
      → suc n < 2 ^ 64
      → execute r.ns r.db r.query.statement s ≡ (answer, s')
      → Fresh format_result lru laws n past shared
      → Ran n r s past
          (after_execute lru format_result execute r.ns r.db r.query (answer, s') shared)
  unfolding after_execute
  executed-Ran n r s past shared (err e) s' small x h = record {
    answer = err e;
    state = s';
    shared = shared;
    later = past;
    returns = refl;
    answered = computed x;
    still = Fresh-later format_result lru laws n past shared h;
  }
  executed-Ran n r s past shared (ok result) s' small x h =
      let stores =
        after_execute-post lru format_result r.ns r.db r.query.statement result r.query.outcome
          shared execute s' in
      elim (after lru format_result r.ns r.db r.query.statement r.query.outcome result shared) [
        | wrote table post is_written ↦
            let now : Shared lru = record shared {
              versions = bump r.ns r.db table shared.versions;
            } in
            record {
              answer = ok result;
              state = s';
              shared = now;
              later = note r (ok result) past;
              returns = stores now post;
              answered = computed x;
              still =
                  rw is_written
                    (Fresh-bump format_result lru laws n past shared r.ns r.db table small h);
            }
        | no_write post unwritten ↦
            let put = Kept-any n r result past shared h in
            record {
              answer = ok result;
              state = s';
              shared = put.stored;
              later = note r (ok result) past;
              returns = stores put.stored (post ∙ put.stores);
              answered = computed x;
              still = rw unwritten (
                  Fresh-later format_result lru laws n
                    (remember (subject r.ns r.db r.query.statement) r result past) put.stored
                    put.fresh);
            }
      ]
