-- ===== src/Examples/LruMemory.antt =====
-- An `lru` cache that is a list in memory: the stated behaviour of the library can be met.
use dllb.Common.{
  ℕ, [], ◌∷◌, ◌++◌, Option, none, some, ◌≡◌, refl, arith, length, leb, ap, if◌then◌else◌,
}
use dllb.Query.Cache.{CacheKey, CacheEntry, LruCache}
use dllb.Query.Cache.Lru.{IsLru, Entries, find, without, promote, without-absent}

pub record Mem : Type 0 where
  pub capacity : ℕ
  pub held : Entries

-- the entry used longest ago, and the others
abbrev pub split_last : Entries → Option (CacheKey × CacheEntry) × Entries
split_last [] = (none, [])
split_last (x ∷ []) = (some x, [])
split_last (x ∷ y ∷ es) = let rest = split_last (y ∷ es) in (rest.0, x ∷ rest.1)

abbrev pub memory_lru : LruCache
memory_lru = record {
  Cache = Mem;
  new_lru = λ n. record { capacity = n; held = [] };
  get_lru = λ k c. (find k c.held, record c { held = promote k (find k c.held) c.held });
  pop = λ k c. (find k c.held, record c { held = without k c.held });
  pop_lru = λ c. ((split_last c.held).0, record c { held = (split_last c.held).1 });
  put_lru = λ k e c. record c {
    held =
        (k, e)
        ∷ (if leb c.capacity (length (without k c.held))
            then (split_last (without k c.held)).1
            else without k c.held);
  };
  len_lru = λ c. length c.held;
  cap = λ c. c.capacity;
}

split_last-append :
    (first : Entries) (x : CacheKey × CacheEntry)
    → ((split_last (first ++ x ∷ [])).0 ≡ some x) × ((split_last (first ++ x ∷ [])).1 ≡ first)
split_last-append [] x = (refl, refl)
split_last-append (y ∷ []) x = (refl, refl)
split_last-append (y ∷ z ∷ first) x =
    let ih = split_last-append (z ∷ first) x in (ih.0, ap (λ es. y ∷ es) ih.1)

pub memory_lru-IsLru : IsLru memory_lru
memory_lru-IsLru = record {
  entries = λ c. c.held;
  entries-new = λ n h. refl;
  cap-new = λ n h. refl;
  get_returns = λ k c. refl;
  entries-get = λ k c. refl;
  cap-get = λ k c. refl;
  pop_returns = λ k c. refl;
  entries-pop = λ k c. refl;
  cap-pop = λ k c. refl;
  pop_lru_returns = λ c first x e. rw e (split_last-append first x).0;
  entries-pop_lru = λ c first x e. rw e (split_last-append first x).1;
  cap-pop_lru = λ c. refl;
  entries-put = λ k e c absent room. rw (without-absent k c.held absent) (ground arith);
  cap-put = λ k e c. refl;
  len-eq = λ c. refl;
}
