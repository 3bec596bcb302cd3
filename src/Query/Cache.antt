-- ===== src/Query/Cache.antt =====
-- crates/query/src/cache.rs: the write versions of tables and the cache of computed results. A
-- method that takes a lock is one step; it returns what it changes beside its result. Counters wrap
-- at 2 ^ 64.
pub mod Keys
pub mod Lru
pub mod Bounds
pub mod Insert
pub mod Read
use dllb.Common.{
  ℕ, zero, suc, ◌+◌, ◌-◌, ◌%◌, ◌^◌, List, [], ◌∷◌, Bytes, Bool, true, false, Option, none, some,
  beq, ltb, leb, ◌==◌, ◌&&◌, ◌||◌, length, not, if◌then◌else◌,
}
use dllb.Query.Ast.{OutcomeFormat, json, toon, csv}

-- (ns, db, table)
pub record TableKey : Type 0 where
  pub ns : Bytes
  pub db : Bytes
  pub table : Bytes

abbrev pub table_key : Bytes → Bytes → Bytes → TableKey
table_key ns db table = record { ns = ns; db = db; table = table }

unfoldable pub table_beq : TableKey → TableKey → Bool
table_beq a b = beq a.ns b.ns && (beq a.db b.db && beq a.table b.table)

abbrev pub WriteVersions : Type 0
WriteVersions = List (TableKey × ℕ)

-- `current` on a key that is built
abbrev pub version_of : TableKey → WriteVersions → ℕ
version_of t [] = 0
version_of t ((u, v) ∷ versions) = if table_beq u t then v else version_of t versions

unfoldable pub current : WriteVersions → Bytes → Bytes → Bytes → ℕ
current versions ns db table = version_of (table_key ns db table) versions

-- A counter that is not there is put there with 0 and then incremented.
abbrev pub bump_key : TableKey → WriteVersions → WriteVersions
bump_key t [] = (t, 1) ∷ []
bump_key t ((u, v) ∷ versions) =
    let rest = bump_key t versions in
    if table_beq u t then (u, suc v % 2 ^ 64) ∷ versions else (u, v) ∷ rest

unfoldable pub bump : Bytes → Bytes → Bytes → WriteVersions → WriteVersions
bump ns db table = bump_key (table_key ns db table)

pub data CacheKind : Type 0 where
  communities_kind : Bytes → ℕ → ℕ → CacheKind
  components_kind : CacheKind
  pagerank_kind : ℕ → ℕ → Option ℕ → CacheKind
  centrality_kind : Bytes → Option ℕ → CacheKind

pub record CacheKey : Type 0 where
  pub ns : Bytes
  pub db : Bytes
  pub table : Bytes
  pub kind : CacheKind
  pub outcome : OutcomeFormat

-- derived equality
abbrev pub limit_beq : Option ℕ → Option ℕ → Bool
limit_beq none none = true
limit_beq (some a) (some b) = a == b
limit_beq _ _ = false

abbrev pub kind_beq : CacheKind → CacheKind → Bool
kind_beq (communities_kind a m r) (communities_kind b n s) = beq a b && (m == n && r == s)
kind_beq components_kind components_kind = true
kind_beq (pagerank_kind d m l) (pagerank_kind e n k) = d == e && (m == n && limit_beq l k)
kind_beq (centrality_kind a l) (centrality_kind b k) = beq a b && limit_beq l k
kind_beq _ _ = false

abbrev pub outcome_beq : OutcomeFormat → OutcomeFormat → Bool
outcome_beq json json = true
outcome_beq toon toon = true
outcome_beq csv csv = true
outcome_beq _ _ = false

-- `eq`
unfoldable pub key_beq : CacheKey → CacheKey → Bool
key_beq a b =
    beq a.ns b.ns
    && (beq a.db b.db
        && (beq a.table b.table && (kind_beq a.kind b.kind && outcome_beq a.outcome b.outcome)))

pub record CacheEntry : Type 0 where
  pub payload : Bytes
  pub version : ℕ
  pub bytes : ℕ

-- The calls of the `lru` library. The cache that a method of `&mut self` leaves is returned.
pub record LruCache : Type 1 where
  pub Cache : Type 0
  pub new_lru : ℕ → Cache
  pub get_lru : CacheKey → Cache → Option CacheEntry × Cache
  pub pop : CacheKey → Cache → Option CacheEntry × Cache
  pub pop_lru : Cache → Option (CacheKey × CacheEntry) × Cache
  pub put_lru : CacheKey → CacheEntry → Cache → Cache
  pub len_lru : Cache → ℕ
  pub cap : Cache → ℕ

module _ (lru : LruCache) where
  open lru use {Cache, new_lru, get_lru, pop, pop_lru, put_lru, len_lru, cap}

  pub record InnerCache : Type 0 where
    pub cache : Cache
    pub current_bytes : ℕ
    pub max_bytes : ℕ

  unfoldable pub with_bounds : ℕ → ℕ → InnerCache
  with_bounds capacity max_bytes = record {
    cache = new_lru (if leb capacity 1 then 1 else capacity);
    current_bytes = 0;
    max_bytes = max_bytes;
  }

  -- the lookup moves the entry to the front whatever its version
  unfoldable pub get : CacheKey → ℕ → InnerCache → Option Bytes × InnerCache
  get key current_version inner =
      let found = get_lru key inner.cache in
      (
        elim found.0 [
          | none ↦ none
          | some entry ↦ if entry.version == current_version then some entry.payload else none
        ],
        record inner { cache = found.1 },
      )

  -- `if let Some(old) = popped { current_bytes -= old.bytes }`, the subtraction saturating
  abbrev pub without_old : Option CacheEntry × Cache → InnerCache → InnerCache
  without_old (none, c) inner = record inner { cache = c }
  without_old (some old, c) inner = record inner {
    cache = c;
    current_bytes = inner.current_bytes - old.bytes;
  }

  unfoldable pub too_full : ℕ → InnerCache → Bool
  too_full entry_bytes inner =
      not (len_lru inner.cache == 0)
      && (leb (cap inner.cache) (len_lru inner.cache)
          || ltb inner.max_bytes ((inner.current_bytes + entry_bytes) % 2 ^ 64))

  -- the eviction loop, with fuel; `none` says that it ran out
  unfoldable pub evict : ℕ → ℕ → InnerCache → Option InnerCache
  unfolding too_full
  evict zero entry_bytes inner = if too_full entry_bytes inner then none else some inner
  evict (suc fuel) entry_bytes inner =
      let popped = pop_lru inner.cache in
      if too_full entry_bytes inner
      then elim popped.0 [
        | none ↦ some (record inner { cache = popped.1 })
        | some victim ↦ evict fuel entry_bytes (record inner {
          cache = popped.1;
          current_bytes = inner.current_bytes - victim.1.bytes;
        })
      ]
      else some inner

  -- the rest of `insert`, once the key's old entry is out
  -- A round of the loop takes one entry out, so the number of entries is fuel enough.
  unfoldable pub insert_new : CacheKey → Bytes → ℕ → ℕ → InnerCache → Option InnerCache
  unfolding evict
  insert_new key payload version entry_bytes inner =
      elim (evict (len_lru inner.cache) entry_bytes inner) [
        | none ↦ none
        | some room ↦ some (record room {
          cache =
              put_lru key (record { payload = payload; version = version; bytes = entry_bytes })
                room.cache;
          current_bytes = (room.current_bytes + entry_bytes) % 2 ^ 64;
        })
      ]

  unfoldable pub insert : CacheKey → Bytes → ℕ → InnerCache → Option InnerCache
  unfolding insert_new
  insert key payload version inner =
      insert_new key payload version ((length payload + 128) % 2 ^ 64)
        (without_old (pop key inner.cache) inner)

  abbrev pub len : InnerCache → ℕ
  len inner = len_lru inner.cache
