-- ===== src/Query/Cache/Lru.antt =====
-- The `lru` library, which the repository does not hold: what its documentation says of the calls
-- that crates/query/src/cache.rs makes. A cache holds its entries in an order, the one used last
-- first.
use dllb.Common.{
  ℕ, ◌+◌, ◌≤◌, ◌<◌, List, [], ◌∷◌, ◌++◌, Option, none, some, ◌≡◌, refl, arith, length, ◌⊎◌, inl,
  inr, All, ap, Bool-cases, if◌then◌else◌,
}
use dllb.Query.Cache.{CacheKey, key_beq, CacheEntry, LruCache}
use dllb.Query.Cache.Keys.{key_beq_iff}

abbrev pub Entries : Type 0
Entries = List (CacheKey × CacheEntry)

abbrev pub find : CacheKey → Entries → Option CacheEntry
find k [] = none
find k ((j, e) ∷ entries) = if key_beq j k then some e else find k entries

abbrev pub without : CacheKey → Entries → Entries
without k [] = []
without k ((j, e) ∷ entries) =
    let rest = without k entries in if key_beq j k then rest else (j, e) ∷ rest

-- an entry that is found is moved to the front
abbrev pub promote : CacheKey → Option CacheEntry → Entries → Entries
promote k none entries = entries
promote k (some e) entries = (k, e) ∷ without k entries

pub record IsLru (lru : LruCache) : Type 0 where
  pub entries : lru.Cache → Entries
  pub entries-new : (n : ℕ) → 0 < n → entries (lru.new_lru n) ≡ []
  pub cap-new : (n : ℕ) → 0 < n → lru.cap (lru.new_lru n) ≡ n
  pub get_returns : (k : CacheKey) (c : lru.Cache) → (lru.get_lru k c).0 ≡ find k (entries c)
  pub entries-get :
      (k : CacheKey) (c : lru.Cache)
      → entries (lru.get_lru k c).1 ≡ promote k (find k (entries c)) (entries c)
  pub cap-get : (k : CacheKey) (c : lru.Cache) → lru.cap (lru.get_lru k c).1 ≡ lru.cap c
  pub pop_returns : (k : CacheKey) (c : lru.Cache) → (lru.pop k c).0 ≡ find k (entries c)
  pub entries-pop : (k : CacheKey) (c : lru.Cache) → entries (lru.pop k c).1 ≡ without k (entries c)
  pub cap-pop : (k : CacheKey) (c : lru.Cache) → lru.cap (lru.pop k c).1 ≡ lru.cap c
  pub pop_lru_returns :
      (c : lru.Cache) (first : Entries) (x : CacheKey × CacheEntry)
      → entries c ≡ first ++ x ∷ []
      → (lru.pop_lru c).0 ≡ some x
  pub entries-pop_lru :
      (c : lru.Cache) (first : Entries) (x : CacheKey × CacheEntry)
      → entries c ≡ first ++ x ∷ []
      → entries (lru.pop_lru c).1 ≡ first
  pub cap-pop_lru : (c : lru.Cache) → lru.cap (lru.pop_lru c).1 ≡ lru.cap c
  pub entries-put :
      (k : CacheKey) (e : CacheEntry) (c : lru.Cache)
      → find k (entries c) ≡ none
      → length (entries c) < lru.cap c
      → entries (lru.put_lru k e c) ≡ (k, e) ∷ entries c
  pub cap-put :
      (k : CacheKey) (e : CacheEntry) (c : lru.Cache) → lru.cap (lru.put_lru k e c) ≡ lru.cap c
  pub len-eq : (c : lru.Cache) → lru.len_lru c ≡ length (entries c)

abbrev pub total : Entries → ℕ
total [] = 0
total ((_, e) ∷ entries) = e.bytes + total entries

abbrev pub Distinct : Entries → Type 0
Distinct [] = Unit
Distinct ((k, _) ∷ entries) = (find k entries ≡ none) × Distinct entries

pub Entries-last :
    (es : Entries)
    → (es ≡ []) ⊎ ((first : Entries) × (x : CacheKey × CacheEntry) × (es ≡ first ++ x ∷ []))
Entries-last [] = inl refl
Entries-last (x ∷ es) = elim (Entries-last es) [
  | inl e ↦ inr ([], x, ap (λ r. x ∷ r) e)
  | inr (first, y, e) ↦ inr (x ∷ first, y, ap (λ r. x ∷ r) e)
]

pub find-without :
    (j k : CacheKey) (es : Entries)
    → find j (without k es) ≡ (if key_beq k j then none else find j es)
find-without j k [] = ground arith
find-without j k ((i, e) ∷ es) =
    ground (arith, find-without j k es, key_beq_iff i k, key_beq_iff i j, key_beq_iff k j)

pub without-absent : (k : CacheKey) (es : Entries) → find k es ≡ none → without k es ≡ es
without-absent k [] h = refl
without-absent k ((j, e) ∷ es) h = ground (arith, without-absent k es)

-- the bytes of what a lookup found
abbrev pub bytes_of : Option CacheEntry → ℕ
bytes_of none = 0
bytes_of (some e) = e.bytes

pub total-without :
    (k : CacheKey) (es : Entries)
    → Distinct es
    → total (without k es) + bytes_of (find k es) ≡ total es
total-without k [] h = refl
total-without k ((j, e) ∷ es) h =
    ground (arith, total-without k es h.1, without-absent k es, key_beq_iff j k, h.0)

pub length-without : (k : CacheKey) (es : Entries) → length (without k es) ≤ length es
length-without k [] = omega arith
length-without k ((j, e) ∷ es) = ground (arith, length-without k es)

pub Distinct-without : (k : CacheKey) (es : Entries) → Distinct es → Distinct (without k es)
Distinct-without k [] h = tt
Distinct-without k ((j, e) ∷ es) h =
    ground (arith, Distinct-without k es h.1, find-without j k es, h.0)

pub All-without :
    (P : CacheKey × CacheEntry → Type 0) (k : CacheKey) (es : Entries)
    → All P es
    → All P (without k es)
All-without P k [] h = tt
All-without P k ((j, e) ∷ es) h = ground (arith, All-without P k es h.1, h.0)

pub find-present :
    (P : CacheKey × CacheEntry → Type 0) (k : CacheKey) (e : CacheEntry) (es : Entries)
    → find k es ≡ some e
    → All P es
    → P (k, e)
find-present P k e [] h a = absurd (ground arith)
find-present P k e ((j, d) ∷ es) h a = elim (Bool-cases (key_beq j k)) [
  | inr f ↦ find-present P k e es (ground arith) a.1
  | inl t ↦
      let key : j ≡ k = (key_beq_iff j k).0 t in
      let entry : d ≡ e = ground arith in rw (key, entry) at a.0
]
