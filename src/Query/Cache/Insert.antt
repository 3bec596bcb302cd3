-- ===== src/Query/Cache/Insert.antt =====
-- What an insertion into the cache leaves (crates/query/src/cache.rs).
use dllb.Common.{
  ℕ, ◌+◌, ◌-◌, ◌≤◌, ◌<◌, ◌%◌, ◌^◌, ◌++◌, Bytes, false, Option, none, some, ◌≡◌, refl, arith, length,
  ◌⊎◌, inl, inr, ap, ◌∙◌, if◌then◌else◌,
}
use dllb.Query.Cache.{
  CacheKey, key_beq, CacheEntry, LruCache, InnerCache, insert, insert_new, evict, too_full,
  without_old,
}
use dllb.Query.Cache.Keys.{key_beq_iff}
use dllb.Query.Cache.Lru.{
  IsLru, Entries, find, bytes_of, find-without, total-without, length-without, Distinct-without,
  All-without,
}
use dllb.Query.Cache.Bounds.{IsSmall, find-first, IsBounded, current_lt, Room, evict-Room}

module _ (lru : LruCache) (laws : IsLru lru) where
  open laws use {entries}

  less_old : Option CacheEntry → lru.Cache → InnerCache lru → InnerCache lru
  less_old o c inner = record inner { cache = c; current_bytes = inner.current_bytes - bytes_of o }

  without_old-less_old :
      (o : Option CacheEntry) (c : lru.Cache) (inner : InnerCache lru)
      → without_old lru (o, c) inner ≡ less_old o c inner
  unfolding less_old
  without_old-less_old none c inner =
      let same : inner.current_bytes ≡ inner.current_bytes - 0 = omega arith in
      ap (λ n. record inner { cache = c; current_bytes = n }) same
  without_old-less_old (some e) c inner = refl

  -- the key's old entry is taken out
  IsBounded-less_old :
      (key : CacheKey) (inner : InnerCache lru)
      → IsBounded lru laws inner
      → IsBounded lru laws
          (less_old (find key (entries inner.cache)) (lru.pop key inner.cache).1 inner)
  unfolding less_old
  IsBounded-less_old key inner h =
      let es = entries inner.cache in
      let left = laws.entries-pop key inner.cache in
      let gone = length-without key es in
      let sum = total-without key es h.distinct in
      record {
        counted = rw left (omega (arith, h.counted));
        distinct = rw left (Distinct-without key es h.distinct);
        small = rw left (All-without IsSmall key es h.small);
        positive = omega (arith, h.positive, laws.cap-pop key inner.cache);
        sized = rw left (omega (arith, h.sized, laws.cap-pop key inner.cache));
        budget =
            rw left (elim h.budget [ inl le ↦ inl (omega arith) | inr one ↦ inr (omega arith) ]);
        limit = h.limit;
      }

  -- what an insertion leaves
  pub record Inserted (key : CacheKey) (entry : CacheEntry) (before after : InnerCache lru)
      : Type 0 where
    pub bounded : IsBounded lru laws after
    pub hit : find key (entries after.cache) ≡ some entry
    pub others :
        (j : CacheKey)
        → key_beq key j ≡ false
        → (find j (entries after.cache) ≡ find j (entries before.cache))
          ⊎ (find j (entries after.cache) ≡ none)
    pub same_max : after.max_bytes ≡ before.max_bytes

  roomy :
      (entry_bytes : ℕ) (inner : InnerCache lru)
      → IsBounded lru laws inner
      → too_full lru entry_bytes inner ≡ false
      → (length (entries inner.cache) < lru.cap inner.cache)
        × ((length (entries inner.cache) ≤ 0)
            ⊎ ((inner.current_bytes + entry_bytes) % 2 ^ 64 ≤ inner.max_bytes))
  unfolding too_full
  roomy entry_bytes inner h f = ground (arith, laws.len-eq inner.cache, h.positive)

  others_first :
      (j : CacheKey) (es dropped : Entries) (before : InnerCache lru)
      → entries before.cache ≡ es ++ dropped
      → (find j es ≡ find j (entries before.cache)) ⊎ (find j es ≡ none)
  others_first j es dropped before e = rw e (find-first j es dropped)

  Inserted-put :
      (key : CacheKey) (entry : CacheEntry) (before after : InnerCache lru)
      → entry.bytes < 2 ^ 63
      → find key (entries before.cache) ≡ none
      → Room lru laws entry.bytes before after
      → Inserted key entry before (record after {
        cache = lru.put_lru key entry after.cache;
        current_bytes = (after.current_bytes + entry.bytes) % 2 ^ 64;
      })
  Inserted-put key entry before after small new room =
      let es = entries after.cache in
      let absent : find key es ≡ none =
        ground (arith, find-first key es room.dropped, ap (λ xs. find key xs) room.from) in
      let space = roomy entry.bytes after room.bounded room.enough in
      let put = laws.entries-put key entry after.cache absent space.0 in
      let below = current_lt lru laws after room.bounded in
      record {
        bounded = record {
          counted = rw put (omega (arith, room.bounded.counted));
          distinct = rw put (absent, room.bounded.distinct);
          small = rw put (small, room.bounded.small);
          positive = omega (arith, room.bounded.positive, laws.cap-put key entry after.cache);
          sized = rw put (omega (arith, laws.cap-put key entry after.cache, space.0));
          budget =
              rw put
                (elim space.1 [ inl none_left ↦ inr (omega arith) | inr fits ↦ inl (omega arith) ]);
          limit = room.bounded.limit;
        };
        hit = rw put (ground (arith, key_beq_iff key key));
        others = λ j other. rw put (rw other (others_first j es room.dropped before room.from));
        same_max = room.same_max;
      }

  insert_new-evict :
      (key : CacheKey) (payload : Bytes) (version entry_bytes : ℕ) (inner room : InnerCache lru)
      → evict lru (lru.len_lru inner.cache) entry_bytes inner ≡ some room
      → insert_new lru key payload version entry_bytes inner
        ≡ some (record room {
          cache =
              lru.put_lru key
                (record { payload = payload; version = version; bytes = entry_bytes })
                room.cache;
          current_bytes = (room.current_bytes + entry_bytes) % 2 ^ 64;
        })
  unfolding insert_new
  insert_new-evict key payload version entry_bytes inner room e = rw (e, insert_new) refl

  find-less_old :
      (j key : CacheKey) (inner : InnerCache lru)
      → find j (
          entries
            (less_old (find key (entries inner.cache)) (lru.pop key inner.cache).1 inner).cache)
        ≡ (if key_beq key j then none else find j (entries inner.cache))
  unfolding less_old
  find-less_old j key inner =
      rw (laws.entries-pop key inner.cache) (find-without j key (entries inner.cache))

  -- Over an `lru` that behaves as documented: an insertion of less than 2 ^ 63 bytes into a
  -- cache that keeps its budget ends, with no more rounds of eviction than there are entries,
  -- leaves a cache that keeps its budget (the bytes are counted right, the capacity is kept,
  -- and so is the byte limit unless one entry is all there is), the key then has the new entry,
  -- and any other key has the entry that it had or none.
  pub insert-Inserted :
      (key : CacheKey) (payload : Bytes) (version : ℕ) (inner : InnerCache lru)
      → IsBounded lru laws inner
      → length payload + 128 < 2 ^ 63
      → (after : InnerCache lru) × (insert lru key payload version inner ≡ some after)
        × Inserted key
            (record { payload = payload; version = version; bytes = length payload + 128 })
            inner
            after
  unfolding insert less_old
  insert-Inserted key payload version inner h small =
      let es = entries inner.cache in
      let alone = less_old (find key es) (lru.pop key inner.cache).1 inner in
      let bounded = IsBounded-less_old key inner h in
      let size : (length payload + 128) % 2 ^ 64 ≡ length payload + 128 = omega arith in
      let out =
        without_old-less_old (lru.pop key inner.cache).0 (lru.pop key inner.cache).1 inner
        ∙ ap (λ o. less_old o (lru.pop key inner.cache).1 inner)
            (laws.pop_returns key inner.cache) in
      let fits =
        evict-Room lru laws (lru.len_lru alone.cache) (length payload + 128) alone bounded
          (omega (arith, laws.len-eq alone.cache)) in
      let entry : CacheEntry = record {
        payload = payload;
        version = version;
        bytes = length payload + 128;
      } in
      let done =
        Inserted-put key entry alone fits.0 small
          (ground (arith, find-less_old key key inner, key_beq_iff key key)) fits.2 in
      (
        record fits.0 {
          cache = lru.put_lru key entry fits.0.cache;
          current_bytes = (fits.0.current_bytes + (length payload + 128)) % 2 ^ 64;
        },
        ap
              (λ n.
                insert_new lru key payload version n
                  (without_old lru (lru.pop key inner.cache) inner))
              size
            ∙ (ap (insert_new lru key payload version (length payload + 128)) out
                ∙ insert_new-evict key payload version (length payload + 128) alone fits.0 fits.1),
        record {
          bounded = done.bounded;
          hit = done.hit;
          others = λ j other. ground (arith, done.others j other, find-less_old j key inner);
          same_max = done.same_max;
        },
      )
