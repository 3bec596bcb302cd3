-- ===== src/Query/Cache/Bounds.antt =====
-- The byte and entry budget of the cache (crates/query/src/cache.rs), and the eviction loop.
use dllb.Common.{
  ℕ, zero, suc, ◌+◌, ◌-◌, ◌≤◌, ◌<◌, ◌^◌, [], ◌∷◌, ◌++◌, false, none, some, ◌≡◌, refl, arith, length,
  length-append, ◌⊎◌, inl, inr, All, All-append_left, Bool-cases, leb, ap, ◌∙◌, sym, append-nil,
  append_assoc, if◌then◌else◌,
}
use dllb.Query.Cache.{CacheKey, CacheEntry, LruCache, InnerCache, with_bounds, evict, too_full}
use dllb.Query.Cache.Lru.{IsLru, Entries, find, total, Distinct, Entries-last}

-- An entry may take less than 2 ^ 63 bytes.
abbrev pub IsSmall : CacheKey × CacheEntry → Type 0
IsSmall x = x.1.bytes < 2 ^ 63

total-append : (a b : Entries) → total (a ++ b) ≡ total a + total b
total-append [] b = omega arith
total-append ((k, e) ∷ a) b = omega (arith, total-append a b)

find-append : (k : CacheKey) (a b : Entries) → find k a ≡ none → find k (a ++ b) ≡ find k b
find-append k [] b h = refl
find-append k ((j, e) ∷ a) b h = ground (arith, find-append k a b)

pub find-first : (k : CacheKey) (a b : Entries) → (find k a ≡ find k (a ++ b)) ⊎ (find k a ≡ none)
find-first k [] b = inr refl
find-first k ((j, e) ∷ a) b = ground (arith, find-first k a b)

Distinct-first : (a b : Entries) → Distinct (a ++ b) → Distinct a
Distinct-first [] b h = tt
Distinct-first ((k, e) ∷ a) b h = (ground (arith, find-first k a b, h.0), Distinct-first a b h.1)

module _ (lru : LruCache) (laws : IsLru lru) where
  open laws use {entries}

  -- Bytes are counted, and the budget is kept except by an entry that is too large on its own.
  pub record IsBounded (inner : InnerCache lru) : Type 0 where
    pub counted : inner.current_bytes ≡ total (entries inner.cache)
    pub distinct : Distinct (entries inner.cache)
    pub small : All IsSmall (entries inner.cache)
    pub positive : 0 < lru.cap inner.cache
    pub sized : length (entries inner.cache) ≤ lru.cap inner.cache
    pub budget : (inner.current_bytes ≤ inner.max_bytes) ⊎ (length (entries inner.cache) ≤ 1)
    pub limit : inner.max_bytes < 2 ^ 63

  pub with_bounds-IsBounded :
      (capacity max_bytes : ℕ) → max_bytes < 2 ^ 63 → IsBounded (with_bounds lru capacity max_bytes)
  unfolding with_bounds
  with_bounds-IsBounded capacity max_bytes h =
      let n : ℕ = if leb capacity 1 then 1 else capacity in
      let some_room : 0 < n = ground arith in
      let empty = laws.entries-new n some_room in
      record {
        counted = rw empty refl;
        distinct = rw empty tt;
        small = rw empty tt;
        positive = omega (arith, laws.cap-new n some_room);
        sized = rw empty (omega arith);
        budget = inl (omega arith);
        limit = h;
      }

  -- no more bytes than two large entries
  pub current_lt : (inner : InnerCache lru) → IsBounded inner → inner.current_bytes < 2 ^ 63
  current_lt inner h = elim h.budget [
    | inl le ↦ omega (arith, h.limit)
    | inr one ↦ single (entries inner.cache) h.counted one h.small
  ]
    where
      single :
          (es : Entries)
          → inner.current_bytes ≡ total es
          → length es ≤ 1
          → All IsSmall es
          → inner.current_bytes < 2 ^ 63
      single [] e one s = omega arith
      single (x ∷ []) e one s = omega (arith, s.0)
      single (x ∷ y ∷ es) e one s = absurd (omega arith)

  -- the last entry is evicted
  IsBounded-evicted :
      (inner : InnerCache lru) (first : Entries) (x : CacheKey × CacheEntry)
      → entries inner.cache ≡ first ++ x ∷ []
      → IsBounded inner
      → IsBounded (record inner {
        cache = (lru.pop_lru inner.cache).1;
        current_bytes = inner.current_bytes - x.1.bytes;
      })
  IsBounded-evicted inner first x e h =
      let left = laws.entries-pop_lru inner.cache first x e in
      let cap_same = laws.cap-pop_lru inner.cache in
      let size = length-append first (x ∷ []) in
      let count = ap (λ es. length es) e in
      record {
        counted =
            rw left (omega (arith, h.counted, ap (λ es. total es) e, total-append first (x ∷ [])));
        distinct = rw left (Distinct-first first (x ∷ []) (rw e at h.distinct));
        small = rw left (All-append_left IsSmall first (x ∷ []) (rw e at h.small));
        positive = omega (arith, h.positive);
        sized = rw left (omega (arith, h.sized));
        budget =
            rw left (elim h.budget [ inl le ↦ inl (omega arith) | inr one ↦ inr (omega arith) ]);
        limit = h.limit;
      }

  -- what the loop leaves
  pub record Room (entry_bytes : ℕ) (before after : InnerCache lru) : Type 0 where
    pub bounded : IsBounded after
    pub dropped : Entries
    pub from : entries before.cache ≡ entries after.cache ++ dropped
    pub enough : too_full lru entry_bytes after ≡ false
    pub same_max : after.max_bytes ≡ before.max_bytes

  not_full :
      (entry_bytes : ℕ) (inner : InnerCache lru)
      → length (entries inner.cache) ≤ 0
      → too_full lru entry_bytes inner ≡ false
  unfolding too_full
  not_full entry_bytes inner h = ground (arith, laws.len-eq inner.cache)

  stop :
      (entry_bytes : ℕ) (inner : InnerCache lru)
      → IsBounded inner
      → too_full lru entry_bytes inner ≡ false
      → Room entry_bytes inner inner
  stop entry_bytes inner h f = record {
    bounded = h;
    dropped = [];
    from = sym (append-nil (entries inner.cache));
    enough = f;
    same_max = refl;
  }

  pub evict-Room :
      (fuel entry_bytes : ℕ) (inner : InnerCache lru)
      → IsBounded inner
      → length (entries inner.cache) ≤ fuel
      → (after : InnerCache lru) × (evict lru fuel entry_bytes inner ≡ some after)
        × Room entry_bytes inner after
  unfolding evict
  evict-Room zero entry_bytes inner h le =
      let f = not_full entry_bytes inner (omega arith) in
      (inner, rw f refl, stop entry_bytes inner h f)
  evict-Room (suc fuel) entry_bytes inner h le =
      elim (Bool-cases (too_full lru entry_bytes inner)) [
        | inr f ↦ (inner, rw f refl, stop entry_bytes inner h f)
        | inl t ↦ elim (Entries-last (entries inner.cache)) [
          | inl e ↦ absurd (ground (arith, not_full entry_bytes inner, ap (λ es. length es) e))
          | inr (first, x, e) ↦
              let smaller : InnerCache lru = record inner {
                cache = (lru.pop_lru inner.cache).1;
                current_bytes = inner.current_bytes - x.1.bytes;
              } in
              let left = laws.entries-pop_lru inner.cache first x e in
              let rest = evict-Room fuel entry_bytes smaller (IsBounded-evicted inner first x e h) (
                omega (
                  arith,
                  ap (λ es. length es) left,
                  length-append first (x ∷ []),
                  ap (λ es. length es) e,
                )) in
              (
                rest.0,
                rw t (rw (laws.pop_lru_returns inner.cache first x e) rest.1),
                record {
                  bounded = rest.2.bounded;
                  dropped = rest.2.dropped ++ x ∷ [];
                  from =
                      e
                      ∙ (ap (λ es. es ++ x ∷ []) (sym left ∙ rest.2.from)
                          ∙ append_assoc (entries rest.0.cache) rest.2.dropped (x ∷ []));
                  enough = rest.2.enough;
                  same_max = rest.2.same_max;
                },
              )
        ]
      ]
