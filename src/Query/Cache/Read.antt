-- ===== src/Query/Cache/Read.antt =====
-- What a lookup in the cache returns and leaves (crates/query/src/cache.rs).
use dllb.Common.{
  ℕ, suc, [], ◌∷◌, Bytes, Option, none, some, ◌≡◌, refl, arith, length, inl, inr, Option-cases,
  ◌==◌, ap, ◌∙◌, if◌then◌else◌,
}
use dllb.Query.Cache.{CacheKey, CacheEntry, LruCache, InnerCache, get}
use dllb.Query.Cache.Keys.{key_beq_iff}
use dllb.Query.Cache.Lru.{
  IsLru, Entries, find, without, promote, Distinct, find-without, total-without, without-absent,
  Distinct-without, All-without, find-present,
}
use dllb.Query.Cache.Bounds.{IsSmall, IsBounded}

length-without_present :
    (k : CacheKey) (e : CacheEntry) (es : Entries)
    → Distinct es
    → find k es ≡ some e
    → suc (length (without k es)) ≡ length es
length-without_present k e [] d h = absurd (ground arith)
length-without_present k e ((j, x) ∷ es) d h =
    ground (arith, length-without_present k e es d.1, without-absent k es, key_beq_iff j k, d.0)

find-promote : (j k : CacheKey) (es : Entries) → find j (promote k (find k es) es) ≡ find j es
find-promote j k es = elim (Option-cases (find k es)) [
  | inl h ↦ rw h refl
  | inr (e, h) ↦ rw h (ground (arith, find-without j k es, key_beq_iff k j))
]

-- what a payload is worth at a version
abbrev pub fresh : ℕ → Option CacheEntry → Option Bytes
fresh v none = none
fresh v (some entry) = if entry.version == v then some entry.payload else none

module _ (lru : LruCache) (laws : IsLru lru) where
  open laws use {entries}

  pub record Got (key : CacheKey) (version : ℕ) (before : InnerCache lru)
      (out : Option Bytes × InnerCache lru) : Type 0 where
    pub bounded : IsBounded lru laws out.1
    pub answer : out.0 ≡ fresh version (find key (entries before.cache))
    pub same : (j : CacheKey) → find j (entries out.1.cache) ≡ find j (entries before.cache)

  promoted :
      (key : CacheKey) (inner : InnerCache lru) (c : lru.Cache)
      → entries c ≡ promote key (find key (entries inner.cache)) (entries inner.cache)
      → lru.cap c ≡ lru.cap inner.cache
      → IsBounded lru laws inner
      → IsBounded lru laws (record inner { cache = c })
  promoted key inner c e same_cap h = elim (Option-cases (find key (entries inner.cache))) [
    | inl f ↦
        let stays : entries c ≡ entries inner.cache =
          e ∙ ap (λ o. promote key o (entries inner.cache)) f in
        record {
          counted = rw stays h.counted;
          distinct = rw stays h.distinct;
          small = rw stays h.small;
          positive = omega (arith, h.positive);
          sized = rw stays (omega (arith, h.sized));
          budget = rw stays h.budget;
          limit = h.limit;
        }
    | inr (x, f) ↦
        let es = entries inner.cache in
        let moves : entries c ≡ (key, x) ∷ without key es = e ∙ ap (λ o. promote key o es) f in
        let size = length-without_present key x es h.distinct f in
        let sum = total-without key es h.distinct in
        record {
          counted = rw moves (ground (arith, h.counted));
          distinct = rw moves (
            ground (arith, find-without key key es, key_beq_iff key key),
            Distinct-without key es h.distinct,
          );
          small =
              rw moves
                (find-present IsSmall key x es f h.small, All-without IsSmall key es h.small);
          positive = omega (arith, h.positive);
          sized = rw moves (omega (arith, h.sized));
          budget = rw moves (elim h.budget [ inl le ↦ inl le | inr one ↦ inr (omega arith) ]);
          limit = h.limit;
        }
  ]

  -- A lookup returns what was stored under the key, if it is of the version that is asked for.
  pub get-Got :
      (key : CacheKey) (version : ℕ) (inner : InnerCache lru)
      → IsBounded lru laws inner
      → Got key version inner (get lru key version inner)
  unfolding get
  get-Got key version inner h = record {
    bounded =
        promoted key inner (lru.get_lru key inner.cache).1 (laws.entries-get key inner.cache)
          (laws.cap-get key inner.cache) h;
    answer =
        rw (laws.get_returns key inner.cache)
          (elim (Option-cases (find key (entries inner.cache))) [
            | inl e ↦ rw e refl
            | inr (x, e) ↦ rw e refl
          ]);
    same = λ j. rw (laws.entries-get key inner.cache) (find-promote j key (entries inner.cache));
  }
